-- ===== src/Cloudflare/Rest/Sleep.antt =====
-- internal/cloudflare/rest.go: `defaultSleep`, the sleep of both adapters.
use cloudflare_smtp_relay.Shared.{
  ◌≡◌, refl, ◌↔◌, ◌⊎◌, inl, inr, true, false, Option, none, some, arith, if◌then◌else◌, Bool-cases,
}
use cloudflare_smtp_relay.Shared.Int.{ℤ, pos, leb_ℤ}
use cloudflare_smtp_relay.Email.Errors.{Fault}
use cloudflare_smtp_relay.Cloudflare.Loop.{History, Outside}

-- What `select` takes: the end of the context, with its error, or the timer.
pub data Wake : Type 0 where
  cancelled : Fault → Wake
  timer_fired : Wake

abbrev woken_by : Wake → Option Fault
woken_by (cancelled e) = some e
woken_by timer_fired = none

-- `ctx_err` is the error of the context where there is nothing to wait for.
unfoldable pub default_sleep : Option Fault → Wake → ℤ → Option Fault
default_sleep ctx_err wake d = if leb_ℤ d (pos 0) then ctx_err else woken_by wake

-- An outside whose sleep is the default one.
abbrev pub with_default_sleep : Outside → (History → ℤ → Wake) → Outside
with_default_sleep o wake = record {
  ctx_err = o.ctx_err;
  exchange = o.exchange;
  clock = o.clock;
  draw = o.draw;
  sleep = λ h d. default_sleep (o.ctx_err h) (wake h d) d;
}

woken_by-eq-none_iff : (wake : Wake) → (woken_by wake ≡ none) ↔ (wake ≡ timer_fired)
woken_by-eq-none_iff (cancelled e) = ((λ h. absurd (cc h)), (λ h. absurd (ground (arith, h))))
woken_by-eq-none_iff timer_fired = ((λ _. refl), (λ _. refl))

-- The sleep is not interrupted exactly if the timer fires first, or, where there is nothing to wait
-- for, the context is not over.
pub default_sleep-eq-none_iff :
    (ctx_err : Option Fault) (wake : Wake) (d : ℤ)
    → (default_sleep ctx_err wake d ≡ none) ↔ (
        ((leb_ℤ d (pos 0) ≡ true) × (ctx_err ≡ none))
        ⊎ ((leb_ℤ d (pos 0) ≡ false) × (wake ≡ timer_fired)))
unfolding default_sleep
default_sleep-eq-none_iff ctx_err wake d = elim (Bool-cases (leb_ℤ d (pos 0))) [
  | inl at_once ↦
      rw (at_once, default_sleep)
        (λ h. inl (refl, h), elim [ inl (_, h) ↦ h | inr (e, _) ↦ absurd (cc e) ])
  | inr later ↦
      rw (later, default_sleep)
        (
          λ h. inr (refl, (woken_by-eq-none_iff wake).0 h),
          elim [ inl (e, _) ↦ absurd (cc e) | inr (_, h) ↦ (woken_by-eq-none_iff wake).1 h ],
        )
]
