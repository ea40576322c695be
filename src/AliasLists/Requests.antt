-- ===== src/AliasLists/Requests.antt =====
-- Requests that client/static/js/aliases.js and client/static/js/web_filter.js make one after another,
-- each once the one before was taken.
use networkat_cloud_web_app.Prelude.{
  ◌≡◌, ◌≢◌, ◌⊎◌, refl, Bool, true, false, List, [], ◌∷◌, ◌++◌, if◌then◌else◌, All, inl, inr,
}

-- `no_answer` stands for a fetch that throws and for an answer that cannot be read.
pub data Answer : Type 0 where
  accepted refused no_answer : Answer

abbrev pub is_accepted : Answer → Bool
is_accepted accepted = true
is_accepted refused = false
is_accepted no_answer = false

-- The requests that were made, in order, and whether the page then says "Saved", closes the form
-- and fetches the lists again.
pub record Saved (Q : Type 0) : Type 0 where
  pub requests : List Q
  pub success : Bool

module _ {Q : Type 0} (answers : Q → Answer) where
  abbrev pub one_request : Q → Saved Q
  one_request q = record { requests = q ∷ []; success = is_accepted (answers q) }

  -- What became of a plan: every request was taken, or those before one that was not. Only then the
  -- page says "Saved", and only these were made.
  pub data Carried : List Q → Saved Q → Type 0 where
    all_taken :
        (plan : List Q)
        → All (λ q. answers q ≡ accepted) plan
        → Carried plan (record { requests = plan; success = true })
    stopped :
        (before : List Q) (q : Q) (after : List Q)
        → All (λ q. answers q ≡ accepted) before
        → answers q ≢ accepted
        → Carried (before ++ q ∷ after) (record { requests = before ++ q ∷ []; success = false })

  is_taken : (q : Q) → (answers q ≡ accepted) ⊎ (answers q ≢ accepted)
  is_taken q = go (answers q)
    where
      go : (a : Answer) → (a ≡ accepted) ⊎ (a ≢ accepted)
      go accepted = inl refl
      go refused = inr (λ e. cc)
      go no_answer = inr (λ e. cc)

  not_accepted : (a : Answer) → a ≢ accepted → is_accepted a ≡ false
  not_accepted accepted h = absurd (h refl)
  not_accepted refused h = refl
  not_accepted no_answer h = refl

  pub one_request-Carried : (q : Q) → Carried (q ∷ []) (one_request q)
  one_request-Carried q = elim (is_taken q) [
    | inl yes_taken ↦ rw yes_taken (all_taken (q ∷ []) (yes_taken, tt))
    | inr not_taken ↦ rw (not_accepted (answers q) not_taken) (stopped [] q [] tt not_taken)
  ]

  -- The second request is made once the first was taken.
  pub two_requests-Carried :
      (p q : Q)
      → Carried (p ∷ q ∷ []) (
          if is_accepted (answers p)
          then record { requests = p ∷ q ∷ []; success = is_accepted (answers q) }
          else record { requests = p ∷ []; success = false })
  two_requests-Carried p q = elim (is_taken p) [
    | inr not_first ↦ rw (not_accepted (answers p) not_first) (stopped [] p (q ∷ []) tt not_first)
    | inl first ↦ elim (is_taken q) [
      | inl second ↦ rw (first, second) (all_taken (p ∷ q ∷ []) (first, (second, tt)))
      | inr not_second ↦
          rw (first, not_accepted (answers q) not_second)
            (stopped (p ∷ []) q [] (first, tt) not_second)
    ]
  ]
