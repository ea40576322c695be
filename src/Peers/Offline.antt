-- ===== src/Peers/Offline.antt =====
-- The title of a peer and the mark for a long absence.
use networkat_cloud_web_app.Prelude.{
  ℕ, ◌-◌, ◌/◌, ◌≡◌, ◌≤◌, ◌<◌, refl, subst, ◌↔◌, true, false, [], ◌++◌, is_nil, is_nil-append_cons,
  ltb, if◌then◌else◌, arith, Bool-cases, inl, inr,
}
use networkat_cloud_web_app.Prelude.Text.{Text, codes}
use networkat_cloud_web_app.Prelude.Decimal.{show}
use networkat_cloud_web_app.Peers.{
  at, format_offline_duration, get_peer_status_title, is_offline_over_7_days,
}

-- A span of time as the title shows it: minutes below an hour, hours below a day, or days. The
-- number is that of the whole days.
pub data IsSpan : ℕ → Text → Type 0 where
  minutes : {k : ℕ} → 1 ≤ k → k < 60 → IsSpan 0 (show k ++ codes "m")
  hours : {k : ℕ} → 1 ≤ k → k < 24 → IsSpan 0 (show k ++ codes "h")
  days : {k : ℕ} → 1 ≤ k → IsSpan k (show k ++ codes "d")

IsSpan-full : {k : ℕ} {s : Text} → IsSpan k s → is_nil s ≡ false
IsSpan-full (minutes {k} _ _) = is_nil-append_cons (show k) b'm' []
IsSpan-full (hours {k} _ _) = is_nil-append_cons (show k) b'h' []
IsSpan-full (days {k} _) = is_nil-append_cons (show k) b'd' []

one_minute : show 1 ≡ codes "1"
unfolding show
one_minute = refl

-- The duration from whole seconds.
span_of_secs : ℕ → Text
span_of_secs secs =
    if ltb secs 60
    then codes "1m"
    else if ltb secs 3600
    then show (secs / 60) ++ codes "m"
    else if ltb secs 86400
    then show (secs / 3600) ++ codes "h"
    else show (secs / 86400) ++ codes "d"

no_days : (secs : ℕ) (s : Text) → secs < 86400 → IsSpan 0 s → IsSpan (secs / 86400) s
no_days secs s short span =
    let zero_days : 0 ≡ secs / 86400 = omega (arith, short) in
    subst (λ k. IsSpan k s) zero_days span

span_of_secs-IsSpan : (secs : ℕ) → IsSpan (secs / 86400) (span_of_secs secs)
unfolding span_of_secs
span_of_secs-IsSpan secs = elim (Bool-cases (ltb secs 60)) [
  | inl a ↦ rw a (
      no_days secs _ (ground (arith, a))
        (rw one_minute at (minutes {k = 1} (omega arith) (omega arith))))
  | inr a ↦ elim (Bool-cases (ltb secs 3600)) [
    | inl b ↦
        rw (a, b)
          (no_days secs _ (ground (arith, b)) (minutes (ground (arith, a)) (ground (arith, b))))
    | inr b ↦ elim (Bool-cases (ltb secs 86400)) [
      | inl c ↦
          rw (a, b, c)
            (no_days secs _ (ground (arith, c)) (hours (ground (arith, b)) (ground (arith, c))))
      | inr c ↦ rw (a, b, c) (days (ground (arith, c)))
    ]
  ]
]

-- The title of a peer that is offline and was seen at a date shows the span since then, and the mark
-- for an absence over 7 days is set exactly when that span is of 7 whole days or more.
pub get_peer_status_title-IsSpan :
    (now dt : ℕ)
    → (k : ℕ) × (s : Text) × (get_peer_status_title now
          (record { is_online = false; last_seen = at dt })
        ≡ codes "Offline for " ++ s)
      × IsSpan k s
      × ((is_offline_over_7_days now (at dt) false ≡ true) ↔ (7 ≤ k))
unfolding get_peer_status_title format_offline_duration is_offline_over_7_days span_of_secs
get_peer_status_title-IsSpan now dt =
    let secs = (now - dt) / 1000 in
    let span = span_of_secs-IsSpan secs in
    (
      secs / 86400,
      span_of_secs secs,
      rw (IsSpan-full span) refl,
      span,
      (λ over. ground (arith, over), λ long. ground (arith, long)),
    )
