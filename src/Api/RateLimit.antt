-- ===== src/Api/RateLimit.antt =====
-- internal/api/server.go: `rateLimiter`. Times are nanoseconds, and 0 is Go's zero `Time`.
use tailclip.Base.{
  ℕ, suc, ◌+◌, ◌-◌, ◌*◌, ◌≤◌, ◌<◌, ◌≡◌, Bool, true, false, not, ◌||◌, List, [], ◌∷◌, arith, ltb,
  leb, ◌==◌, if◌then◌else◌,
}

pub record Limiter : Type 0 where
  pub limit : ℕ
  pub window : ℕ
  pub window_start : ℕ
  pub count : ℕ

abbrev pub minute : ℕ
minute = 60 * 1_000_000_000

unfoldable pub new_limiter : ℕ → ℕ → Limiter
new_limiter limit window = record { limit = limit; window = window; window_start = 0; count = 0 }

refresh : ℕ → Limiter → Limiter
refresh now l =
    if l.window_start == 0 || not (ltb now (l.window_start + l.window))
    then record l { window_start = now; count = 0 }
    else l

spend : Limiter → Bool × Limiter
spend l = if leb l.limit l.count then (false, l) else (true, record l { count = suc l.count })

unfoldable pub allow : ℕ → Limiter → Bool × Limiter
unfolding refresh spend
allow now l = spend (refresh now l)

-- How many of the requests at these times are allowed.
pub granted : List ℕ → Limiter → ℕ
granted [] l = 0
granted (t ∷ ts) l = let rest = granted ts (allow t l).1 in if (allow t l).0 then suc rest else rest

-- All times lie in the interval that begins at `a` and lasts `w`.
abbrev pub Within : ℕ → ℕ → List ℕ → Type 0
Within a w [] = Unit {0}
Within a w (t ∷ ts) = ((a ≤ t) × (t < a + w)) × Within a w ts

-- While no window can end, only what is left of the current one is granted.
granted-same_window :
    (a w : ℕ) (ts : List ℕ) (l : Limiter)
    → 0 < a
    → a ≤ l.window_start
    → l.window ≡ w
    → Within a w ts
    → granted ts l ≤ l.limit - l.count
unfolding granted allow
granted-same_window a w [] l p q e h = omega arith
granted-same_window a w (t ∷ ts) l p q e h = ground (
  arith,
  granted-same_window a w ts (record l { count = suc l.count }),
  granted-same_window a w ts l,
)

-- In any stretch of time as long as a window, at most twice the limit is granted, whatever was
-- asked before.
granted-le :
    (a w : ℕ) (ts : List ℕ) (l : Limiter)
    → 0 < a
    → l.window ≡ w
    → Within a w ts
    → granted ts l ≤ (l.limit - l.count) + l.limit
unfolding granted allow
granted-le a w [] l p e h = omega arith
granted-le a w (t ∷ ts) l p e h = ground (
  arith,
  granted-same_window a w ts (record l { window_start = t; count = 1 }) p,
  granted-same_window a w ts (record l { window_start = t; count = 0 }) p,
  granted-le a w ts (record l { count = suc l.count }) p,
  granted-le a w ts l p,
)

-- Of requests that all come within one window's length, after time 0, at most twice the limit are
-- granted, however many there are and whatever was granted before.
pub granted-le-twice :
    (a w : ℕ) (ts : List ℕ) (l : Limiter)
    → 0 < a
    → l.window ≡ w
    → Within a w ts
    → granted ts l ≤ 2 * l.limit
granted-le-twice a w ts l p e h = omega (arith, granted-le a w ts l p e h)
