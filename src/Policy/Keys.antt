-- ===== src/Policy/Keys.antt =====
-- internal/app/message_service_impl.go: reading the task back from a logical key.
use claw.Prelude.{
  ◌≡◌, ◌≢◌, refl, sym, ◌∙◌, ◌↔◌, Option, none, some, [], ◌∷◌, ◌++◌, arith, if◌then◌else◌,
  append_assoc,
}
use claw.Prelude.Text.{Text, codes, is_empty, cut_prefix, cut_prefix-append, cut_prefix_sound}
use claw.Errors.{Error, message, Result, ok, err}
use claw.Policy.{build_task_key}

abbrev unless_empty : Error → Text → Result Text
unless_empty e [] = err e
unless_empty e (c ∷ s) = ok (c ∷ s)

abbrev found_or : Error → Option Text → Result Text
found_or e none = err e
found_or e (some rest) = unless_empty e rest

unfoldable pub invalid_key : Text → Text → Error
invalid_key user_id key =
    message (codes "invalid task logical thread key " ++ (key ++ (codes " for user " ++ user_id)))

-- taskIDFromLogicalKey: the key must be longer than the user and the colon in front of it.
unfoldable pub task_id_from_logical_key : Text → Text → Result Text
task_id_from_logical_key user_id key =
    if is_empty user_id
    then err (invalid_key user_id key)
    else found_or (invalid_key user_id key) (cut_prefix key (user_id ++ b':' ∷ []))

key-split :
    (user_id task_id : Text) → build_task_key user_id task_id ≡ (user_id ++ b':' ∷ []) ++ task_id
unfolding build_task_key
key-split user_id task_id = sym (append_assoc user_id (b':' ∷ []) task_id)

found_or-ok :
    (e : Error) (o : Option Text) {t : Text} → found_or e o ≡ ok t → (o ≡ some t) × (t ≢ [])
found_or-ok e none h = absurd (ground arith)
found_or-ok e (some []) h = absurd (ground arith)
found_or-ok e (some (c ∷ s)) h = (ground arith, λ n. ground arith)

unless_empty-ok : (e : Error) (t : Text) → t ≢ [] → unless_empty e t ≡ ok t
unless_empty-ok e [] n = absurd (n refl)
unless_empty-ok e (c ∷ s) n = refl

-- The task read from a key is `task_id` exactly if neither it nor the user is empty and the key
-- is the one built from the user and the task.
pub task_id_from_logical_key_iff :
    (user_id task_id key : Text)
    → (task_id_from_logical_key user_id key ≡ ok task_id)
      ↔ ((user_id ≢ []) × (task_id ≢ []) × (key ≡ build_task_key user_id task_id))
unfolding task_id_from_logical_key is_empty
task_id_from_logical_key_iff [] task_id key = (λ h. cc, λ h. absurd (h.0 refl))
task_id_from_logical_key_iff (c ∷ u) task_id key = (to, from)
  where
    to :
        found_or (invalid_key (c ∷ u) key) (cut_prefix key ((c ∷ u) ++ b':' ∷ [])) ≡ ok task_id
        → ((c ∷ u) ≢ []) × (task_id ≢ []) × (key ≡ build_task_key (c ∷ u) task_id)
    to h =
        let (cut, n) = found_or-ok _ _ h in
        (λ x. cc, n, cut_prefix_sound _ _ _ cut ∙ sym (key-split (c ∷ u) task_id))

    from :
        ((c ∷ u) ≢ []) × (task_id ≢ []) × (key ≡ build_task_key (c ∷ u) task_id)
        → found_or (invalid_key (c ∷ u) key) (cut_prefix key ((c ∷ u) ++ b':' ∷ [])) ≡ ok task_id
    from (_, n, e) =
        rw (e, key-split (c ∷ u) task_id, cut_prefix-append ((c ∷ u) ++ b':' ∷ []) task_id)
          (unless_empty-ok _ task_id n)
