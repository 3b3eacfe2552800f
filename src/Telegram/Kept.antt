-- ===== src/Telegram/Kept.antt =====
-- What every message keeps.
use aimos.Prelude.{◌≡◌, refl, ◌∙◌, true, Option, none, some}
use aimos.Runtime.Features.{Params, SameLocked}
use aimos.Runtime.Pipeline.{Orchestrator}
use aimos.Telegram.Bot.{Router, on_orch}

-- A halt, in memory or in the file, stays.
abbrev pub KeepsHalt : Option Orchestrator → Option Orchestrator → Type 0
KeepsHalt none none = Unit
KeepsHalt (some o) (some q) =
    (o.halted ≡ true → q.halted ≡ true) × (o.halt_file ≡ true → q.halt_file ≡ true)
KeepsHalt _ _ = ⊥

abbrev pub KeepsLocked : Option Params → Option Params → Type 0
KeepsLocked none none = Unit
KeepsLocked (some p) (some q) = SameLocked q p
KeepsLocked _ _ = ⊥

-- The whitelist is the same, a halt stays and no locked setting moved.
pub record Kept (r q : Router) : Type 0 where
  pub allowed : q.allowed ≡ r.allowed
  pub halt : KeepsHalt r.orch q.orch
  pub locked : KeepsLocked r.features q.features

pub KeepsHalt-refl : (o : Option Orchestrator) → KeepsHalt o o
KeepsHalt-refl none = tt
KeepsHalt-refl (some o) = (λ h. h, λ h. h)

pub KeepsLocked-refl : (p : Option Params) → KeepsLocked p p
KeepsLocked-refl none = tt
KeepsLocked-refl (some p) = record {
  live = refl;
  mandate = refl;
  multi_venue_live = refl;
  market_making = refl;
}

pub KeepsHalt-trans : (a b c : Option Orchestrator) → KeepsHalt a b → KeepsHalt b c → KeepsHalt a c
KeepsHalt-trans none none none _ _ = tt
KeepsHalt-trans none none (some c) h k = elim k [ ]
KeepsHalt-trans none (some b) c h k = elim h [ ]
KeepsHalt-trans (some a) none c h k = elim h [ ]
KeepsHalt-trans (some a) (some b) none h k = elim k [ ]
KeepsHalt-trans (some a) (some b) (some c) h k = (λ x. k.0 (h.0 x), λ x. k.1 (h.1 x))

pub KeepsLocked-trans :
    (a b c : Option Params) → KeepsLocked a b → KeepsLocked b c → KeepsLocked a c
KeepsLocked-trans none none none _ _ = tt
KeepsLocked-trans none none (some c) h k = elim k [ ]
KeepsLocked-trans none (some b) c h k = elim h [ ]
KeepsLocked-trans (some a) none c h k = elim h [ ]
KeepsLocked-trans (some a) (some b) none h k = elim k [ ]
KeepsLocked-trans (some a) (some b) (some c) h k = record {
  live = k.live ∙ h.live;
  mandate = k.mandate ∙ h.mandate;
  multi_venue_live = k.multi_venue_live ∙ h.multi_venue_live;
  market_making = k.market_making ∙ h.market_making;
}

pub Kept-refl : (r : Router) → Kept r r
Kept-refl r = record {
  allowed = refl;
  halt = KeepsHalt-refl r.orch;
  locked = KeepsLocked-refl r.features;
}

pub Kept-trans : (a b c : Router) → Kept a b → Kept b c → Kept a c
Kept-trans a b c h k = record {
  allowed = k.allowed ∙ h.allowed;
  halt = KeepsHalt-trans a.orch b.orch c.orch h.halt k.halt;
  locked = KeepsLocked-trans a.features b.features c.features h.locked k.locked;
}

pub on_orch-Kept :
    (f : Orchestrator → Orchestrator)
    → ((o : Orchestrator) → KeepsHalt (some o) (some (f o)))
    → (r : Router) → Kept r (on_orch f r)
on_orch-Kept f h r = record {
  allowed = refl;
  halt = elim r.orch as (λ o. KeepsHalt o (elim o [ none ↦ none | some o' ↦ some (f o') ])) [
    | none ↦ tt
    | some o ↦ h o
  ];
  locked = KeepsLocked-refl r.features;
}
