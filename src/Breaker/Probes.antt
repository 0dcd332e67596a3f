-- ===== src/Breaker/Probes.antt =====
-- The half-open breaker: how many probes it lets through at once.
use edge_cdn.Base.{
  ℕ, zero, suc, ◌+◌, ◌-◌, ◌<◌, ◌≡◌, ap, ◌∙◌, ◌⊎◌, true, false, arith, if◌then◌else◌,
}
use Prim.Native.Nat.{min}
use edge_cdn.Base.Int.{ℤ, pos, negsuc, incr}
use edge_cdn.Breaker.{Breaker, Settings, open_state, half_open, begin, complete, state_of}

-- How many of `n` calls that arrive together, with none returning, are admitted.
pub admitted : ℕ → ℕ → Breaker → ℕ
admitted zero now b = 0
admitted (suc n) now b = let (b', ok) = begin now b in (if ok then 1 else 0) + admitted n now b'

-- The free probe slots.
abbrev pub slots : ℤ → ℕ → ℕ
slots (pos n) m = m - n
slots (negsuc n) m = m + suc n

slots-incr : (z : ℤ) (m : ℕ) → 0 < slots z m → slots (incr z) m + 1 ≡ slots z m
slots-incr (pos n) m h = omega arith
slots-incr (negsuc zero) m h = omega arith
slots-incr (negsuc (suc n)) m h = omega arith

begin-half_open :
    (b : Breaker) (now : ℕ)
    → b.state ≡ half_open
    → let m = b.cfg.half_open_max_concurrent in
      let b' = (begin now b).0 in
      (b'.state ≡ half_open)
      × (b'.cfg.half_open_max_concurrent ≡ m)
      × (((0 < slots b.half_open_in_flight m)
            × ((begin now b).1 ≡ true)
            × (slots b'.half_open_in_flight m + 1 ≡ slots b.half_open_in_flight m))
          ⊎ ((slots b.half_open_in_flight m ≡ 0)
              × ((begin now b).1 ≡ false)
              × (b'.half_open_in_flight ≡ b.half_open_in_flight)))
unfolding begin
begin-half_open b now h =
    ground (arith, slots-incr b.half_open_in_flight b.cfg.half_open_max_concurrent)

-- Of the calls that reach a half-open breaker together it admits exactly as many as it has free
-- slots.
pub admitted-slots :
    (n now : ℕ) (b : Breaker)
    → b.state ≡ half_open
    → admitted n now b ≡ min n (slots b.half_open_in_flight b.cfg.half_open_max_concurrent)
unfolding admitted
admitted-slots zero now b h = omega arith
admitted-slots (suc n) now b h =
    ground (arith, begin-half_open b now h, admitted-slots n now (begin now b).0)

reopened :
    (b : Breaker) (now after : ℕ)
    → b.state ≡ open_state
    → b.cfg.open_timeout < now - b.last_state_change
    → 1 < b.cfg.success_threshold
    → let b' = complete true after (state_of now b).0 in
      (b'.state ≡ half_open) × (b'.half_open_in_flight ≡ negsuc 0) × (b'.cfg ≡ b.cfg)
unfolding state_of complete
reopened b now after o late two = ground arith

-- When an open breaker has timed out and its state is read, and then a call returns successfully
-- that began before the breaker opened, the breaker lets one probe more through at once than its
-- limit allows, where more than one success is needed to close it.
pub stale_success_overadmits :
    (n : ℕ) (b : Breaker) (now after later : ℕ)
    → b.state ≡ open_state
    → b.cfg.open_timeout < now - b.last_state_change
    → 1 < b.cfg.success_threshold
    → admitted n later (complete true after (state_of now b).0)
      ≡ min n (b.cfg.half_open_max_concurrent + 1)
stale_success_overadmits n b now after later o late two =
    let b' = complete true after (state_of now b).0 in
    let (h, z, c) = reopened b now after o late two in
    admitted-slots n later b' h
    ∙ ap (λ w. min n (slots w b'.cfg.half_open_max_concurrent)) z
    ∙ ap (λ (s : Settings). min n (s.half_open_max_concurrent + 1)) c
