-- ===== src/Clipboard/Session/Retry.antt =====
-- The retries end: how often the clipboard is tried, and when the wait is given up.
use tailclip.Base.{
  ℕ, zero, suc, ◌+◌, ◌-◌, ◌*◌, ◌≤◌, ◌<◌, min, ◌≡◌, ◌≢◌, refl, Bool, true, false, Option, none, some,
  arith, ◌==◌, if◌then◌else◌, err,
}
use tailclip.Clipboard.{busy, is_busy}
use tailclip.Clipboard.Session.{
  Desktop, Opening, retry, retry_open_clipboard, longest_delay, first_delay, max_open_wait, rounds,
}

-- Whether waits that double from `delay` fill `gap` in fewer than `fuel` rounds.
enough : ℕ → ℕ → ℕ → Bool
enough zero delay gap = false
enough (suc fuel) delay gap =
    let rest = enough fuel (min (delay * 2) longest_delay) (gap - delay) in
    if gap == 0 then true else rest

enough_mono :
    (fuel delay : ℕ) {gap gap' : ℕ}
    → gap' ≤ gap
    → enough fuel delay gap ≡ true
    → enough fuel delay gap' ≡ true
unfolding enough
enough_mono zero delay h e = e
enough_mono (suc fuel) delay {gap} {gap'} h e = ground (
  arith,
  enough_mono fuel (min (delay * 2) longest_delay) {gap = gap - delay} {gap' = gap' - delay}
      (omega arith),
)

-- The retries ended, after fewer than `n` calls of `open`.
abbrev pub Ends : ℕ → Option Opening → Type 0
Ends n none = ⊥
Ends n (some o) = o.tries < n

retry-Ends :
    (fuel : ℕ) (d : Desktop) (deadline i now delay : ℕ)
    → enough fuel delay (deadline - now) ≡ true
    → Ends (i + fuel) (retry fuel d deadline i now delay)
unfolding retry enough
retry-Ends zero d deadline i now delay h = cc
retry-Ends (suc fuel) d deadline i now delay h =
    let later : ℕ = now + d.open_time i in
    let woken : ℕ = later + min delay (deadline - later) + d.oversleep i in
    let next : ℕ = min (delay * 2) longest_delay in
    let rest = retry-Ends fuel d deadline (suc i) woken next in
    let less = enough_mono fuel next {gap = deadline - now - delay} {gap' = deadline - woken} in
    ground (arith, rest, less)

enough-rounds : enough rounds first_delay max_open_wait ≡ true
unfolding enough
enough-rounds = refl

-- However long each call takes and whatever it answers, the loop ends, after ten calls at the most.
pub retry_open_clipboard-Ends :
    (d : Desktop) (start : ℕ) → Ends rounds (retry_open_clipboard d start)
unfolding retry_open_clipboard
retry_open_clipboard-Ends d start =
    retry-Ends rounds d (start + max_open_wait) 0 start first_delay
      (enough_mono rounds first_delay {gap = max_open_wait} (omega arith) enough-rounds)

-- The context of a call reports its own end and never a busy clipboard.
pub record IsSane (d : Desktop) : Type 0 where
  pub ctx_sane : (t : ℕ) → d.ctx t ≢ some busy
  pub interrupted_sane : (i : ℕ) → d.interrupted i ≢ some busy

retry_patient :
    (fuel : ℕ) (d : Desktop) (deadline i now delay : ℕ) (o : Opening)
    → IsSane d
    → retry fuel d deadline i now delay ≡ some o
    → o.result ≡ err busy
    → deadline ≤ o.finished
unfolding retry is_busy
retry_patient zero d deadline i now delay o s h e = cc
retry_patient (suc fuel) d deadline i now delay o s h e =
    let later : ℕ = now + d.open_time i in
    let woken : ℕ = later + min delay (deadline - later) + d.oversleep i in
    ground (
      arith,
      s.ctx_sane now,
      s.interrupted_sane i,
      retry_patient fuel d deadline (suc i) woken (min (delay * 2) longest_delay) o s,
    )

-- A busy clipboard is reported only when the whole second has passed, where the context of the call
-- never reports a busy clipboard itself.
pub retry_open_clipboard_patient :
    (d : Desktop) (start : ℕ) (o : Opening)
    → IsSane d
    → retry_open_clipboard d start ≡ some o
    → o.result ≡ err busy
    → start + max_open_wait ≤ o.finished
unfolding retry_open_clipboard
retry_open_clipboard_patient d start o =
    retry_patient rounds d (start + max_open_wait) 0 start first_delay o
