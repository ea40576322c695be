-- ===== src/SystemLogs/Stream/States.antt =====
-- The live stream: its states, its steps and its retries.
use networkat_cloud_web_app.Prelude.{
  ℕ, zero, suc, ◌+◌, ◌-◌, ◌≡◌, ◌≤◌, ◌<◌, ◌≢◌, refl, ap, Bool, true, false, Option, none, some, leb,
  ◌==◌, arith, Bool-cases, inl, inr, ==_iff,
}
use native.Mathlib.Nat.{pow-suc}
use networkat_cloud_web_app.Prelude.Word.Laws.{pow_two_pos}
use networkat_cloud_web_app.SystemLogs.Stream.{
  Shown, connecting, live_shown, paused, offline_shown, off_shown, Retry, refresh_later,
  start_later, Stream, stop_stream, stop_stream_as, start_stream, is_current, on_open, retry_delay,
  retry_after, LoadError, offline_error, plain_error, other_error, retry_dropped, reload_failed,
  on_error,
}

-- A callback may come from any stream, also from one that was replaced.
pub data StreamStep : Stream → Stream → Type 0 where
  started : (hidden : Bool) (s : Stream) → StreamStep s (start_stream hidden s)
  paused_by_page : (s : Stream) → StreamStep s (stop_stream_as paused s)
  reload_began : (s : Stream) → StreamStep s (retry_dropped s)
  reload_broke : (e : LoadError) (s : Stream) → StreamStep s (reload_failed e s)
  opened : (es : ℕ) (s : Stream) → StreamStep s (on_open es s)
  failed : (closed : Bool) (es : ℕ) (s : Stream) → StreamStep s (on_error closed es s)

pub data StreamSteps : Stream → Stream → Type 0 where
  here : (s : Stream) → StreamSteps s s
  next : {s t u : Stream} → StreamSteps s t → StreamStep t u → StreamSteps s u

-- A stream is there exactly while the page shows that it is connecting or live.
abbrev pub ShowsStream : Shown → Option ℕ → Type 0
ShowsStream connecting none = ⊥
ShowsStream connecting (some k) = Unit
ShowsStream live_shown none = ⊥
ShowsStream live_shown (some k) = Unit
ShowsStream paused es = es ≡ none
ShowsStream offline_shown es = es ≡ none
ShowsStream off_shown es = es ≡ none

abbrev pub NoFails : Shown → ℕ → Type 0
NoFails live_shown fails = fails ≡ 0
NoFails _ fails = Unit

abbrev pub Older : Option ℕ → ℕ → Type 0
Older none n = Unit
Older (some k) n = k < n

abbrev pub DelayFits : Option Retry → Type 0
DelayFits none = Unit
DelayFits (some (refresh_later d)) = (10000 ≤ d) × (d ≤ 30000)
DelayFits (some (start_later d)) = d ≡ 5000

pub record IsConsistent (s : Stream) : Type 0 where
  pub stream : ShowsStream s.shown s.es
  pub no_fails : NoFails s.shown s.fails
  pub older : Older s.es s.next_es
  pub delay : DelayFits s.retry

retry_delay-bounds :
    (fails : ℕ) → 2 ≤ fails → (10000 ≤ retry_delay fails) × (retry_delay fails ≤ 30000)
unfolding retry_delay
retry_delay-bounds zero h = absurd (omega arith)
retry_delay-bounds (suc zero) h = absurd (omega arith)
retry_delay-bounds (suc (suc m)) h =
    let e : suc (suc m) - 1 ≡ suc m = omega arith in
    rw (retry_delay, e) (ground (arith, pow-suc 2 m, pow_two_pos m))

retry_after-DelayFits : (fails : ℕ) → DelayFits (some (retry_after (fails + 1)))
unfolding retry_after
retry_after-DelayFits zero = unfold retry_delay in refl
retry_after-DelayFits (suc n) =
    let many : leb 2 (suc n + 1) ≡ true = ground arith in
    rw (retry_after, many) (retry_delay-bounds (suc n + 1) (omega arith))

current-es : (es : ℕ) (s : Stream) → is_current es s ≡ true → s.es ≡ some es
current-es es s h = go s.es h
  where
    go : (o : Option ℕ) → elim o [ none ↦ false | some k ↦ k == es ] ≡ true → o ≡ some es
    go none h = cc
    go (some k) h = ap some ((==_iff k es).0 h)

on_open-IsConsistent : (es : ℕ) (s : Stream) → IsConsistent s → IsConsistent (on_open es s)
unfolding on_open
on_open-IsConsistent es s c = elim (Bool-cases (is_current es s)) [
  | inl current ↦
      let there = current-es es s current in
      rw (on_open, current)
        (record { stream = rw there tt; no_fails = refl; older = c.older; delay = c.delay })
  | inr stale ↦ rw (on_open, stale) c
]

on_error-IsConsistent :
    (closed : Bool) (es : ℕ) (s : Stream) → IsConsistent s → IsConsistent (on_error closed es s)
unfolding on_error stop_stream_as
on_error-IsConsistent true es s c = elim (Bool-cases (is_current es s)) [
  | inl current ↦
      rw (on_error, current)
        (record { stream = refl; no_fails = tt; older = tt; delay = retry_after-DelayFits s.fails })
  | inr stale ↦ rw (on_error, stale) c
]
on_error-IsConsistent false es s c = elim (Bool-cases (is_current es s)) [
  | inl current ↦
      let there = current-es es s current in
      rw (on_error, current)
        (record { stream = rw there tt; no_fails = tt; older = c.older; delay = c.delay })
  | inr stale ↦ rw (on_error, stale) c
]

step-IsConsistent : {s t : Stream} → StreamStep s t → IsConsistent s → IsConsistent t
unfolding start_stream stop_stream stop_stream_as retry_dropped reload_failed
step-IsConsistent (started true s) c = record {
  stream = refl;
  no_fails = tt;
  older = tt;
  delay = c.delay;
}
step-IsConsistent (started false s) c = record {
  stream = tt;
  no_fails = tt;
  older = omega arith;
  delay = c.delay;
}
step-IsConsistent (paused_by_page s) c = record {
  stream = refl;
  no_fails = tt;
  older = tt;
  delay = c.delay;
}
step-IsConsistent (reload_began s) c = record {
  stream = c.stream;
  no_fails = c.no_fails;
  older = c.older;
  delay = tt;
}
step-IsConsistent (reload_broke offline_error s) c = record {
  stream = refl;
  no_fails = tt;
  older = tt;
  delay = (omega arith, omega arith);
}
step-IsConsistent (reload_broke plain_error s) c = record {
  stream = refl;
  no_fails = tt;
  older = tt;
  delay = (omega arith, omega arith);
}
step-IsConsistent (reload_broke other_error s) c = record {
  stream = refl;
  no_fails = tt;
  older = tt;
  delay = c.delay;
}
step-IsConsistent (opened es s) c = on_open-IsConsistent es s c
step-IsConsistent (failed closed es s) c = on_error-IsConsistent closed es s c

-- Over any sequence of starts, stops and callbacks, of replaced streams too, the page shows
-- "connecting" or "live" exactly while it holds a stream, "live" only with no failures counted, the
-- stream it holds is older than the next one, and a timer runs the start alone after 5 seconds, or
-- the whole refresh after 10 to 30 seconds, if this held before.
pub StreamSteps-IsConsistent : {s t : Stream} → StreamSteps s t → IsConsistent s → IsConsistent t
StreamSteps-IsConsistent (here s) c = c
StreamSteps-IsConsistent (next steps step) c =
    step-IsConsistent step (StreamSteps-IsConsistent steps c)

-- A callback of a stream that was replaced or closed changes nothing.
pub stale_callbacks :
    (closed : Bool) (es : ℕ) (s : Stream)
    → s.es ≢ some es
    → (on_open es s ≡ s) × (on_error closed es s ≡ s)
unfolding on_open on_error
stale_callbacks closed es s other = elim (Bool-cases (is_current es s)) [
  | inl current ↦ absurd (other (current-es es s current))
  | inr stale ↦ (rw (on_open, stale) refl, rw (on_error, stale) refl)
]
