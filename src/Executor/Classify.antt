-- ===== src/Executor/Classify.antt =====
-- The classification word at the head of a message, written and read back.
use stock_ai_platform.Base.{
  ◌≡◌, refl, ◌∷◌, ◌++◌, ◌⊎◌, inl, inr, Text, eq_text, eq_text_iff, codes, strip, upper, Bool-cases,
  ◌∙◌, if◌then◌else◌,
}
use stock_ai_platform.Executor.Words.{
  Placement, submitted, rejected, timeout, network_error, unknown, before_colon, placement_text,
  classify_place_message,
}

-- A word that is compared with one text: it is that text, or what follows decides.
pick :
    (h t : Text) (p rest : Placement)
    → t ≡ placement_text p
    → (rest ≡ unknown) ⊎ (h ≡ placement_text rest)
    → ((if eq_text h t then p else rest) ≡ unknown)
      ⊎ (h ≡ placement_text (if eq_text h t then p else rest))
pick h t p rest w r = elim (Bool-cases (eq_text h t)) [
  | inl same ↦ rw same (inr ((eq_text_iff h t).0 same ∙ w))
  | inr other ↦ rw other r
]

head_read :
    (m : Text)
    → (classify_place_message m ≡ unknown)
      ⊎ (upper (strip (before_colon m)) ≡ placement_text (classify_place_message m))
unfolding classify_place_message
head_read m =
    let h = upper (strip (before_colon m)) in
    pick h (codes "SUBMITTED") submitted _ refl (
      pick h (codes "REJECTED") rejected _ refl (
        pick h (codes "TIMEOUT") timeout _ refl
          (pick h (codes "NETWORK_ERROR") network_error unknown refl (inl refl))))

-- A message that is a classification's word, alone or before a colon and any detail, is read as that
-- classification; and a message that is read as one other than unknown has its word before the
-- first colon, up to case and the space around it.
pub classify_place_message-placement_text :
    (p : Placement) (detail message : Text)
    → (classify_place_message (placement_text p) ≡ p)
      × (classify_place_message (placement_text p ++ b':' ∷ detail) ≡ p)
      × ((classify_place_message message ≡ unknown)
          ⊎ (upper (strip (before_colon message))
              ≡ placement_text (classify_place_message message)))
unfolding classify_place_message before_colon strip upper eq_text
classify_place_message-placement_text submitted detail m = (refl, refl, head_read m)
classify_place_message-placement_text rejected detail m = (refl, refl, head_read m)
classify_place_message-placement_text timeout detail m = (refl, refl, head_read m)
classify_place_message-placement_text network_error detail m = (refl, refl, head_read m)
classify_place_message-placement_text unknown detail m = (refl, refl, head_read m)
