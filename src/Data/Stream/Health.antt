-- ===== src/Data/Stream/Health.antt =====
-- The health of the streams: `StreamHealth` of aimos/data/streams.py.
use aimos.Prelude.{
  String, ◌≡◌, refl, ap, ◌∙◌, inl, inr, Option-cases, Bool, true, false, not, Option, none, some,
  List, [], ◌∷◌, str_eq, if◌then◌else◌,
}
use aimos.Prelude.Int.{ℤ, ◌-ℤ◌, leb_ℤ}
use aimos.Prelude.Dict.{Dict, lookup, insert, lookup-insert}
use aimos.Prelude.Floats.{Floats}

pub record StreamHealth (F : Type 0) : Type 0 where
  pub unhealthy_after_seconds : F
  pub last : Dict ℤ

-- A message of a stream, at a time.
abbrev pub Heard : Type 0
Heard = String × ℤ

-- The time of the last message of a stream, or what was known before.
abbrev pub last_heard : String → List Heard → Option ℤ → Option ℤ
last_heard stream [] before = before
last_heard stream ((s, ts) ∷ heard) before =
    last_heard stream heard (if str_eq s stream then some ts else before)

module _ {F : Type 0} ⦃fl : Floats F⦄ where
  unfoldable pub mark : String → ℤ → StreamHealth F → StreamHealth F
  mark stream ts h = record h { last = insert stream ts h.last }

  unfoldable pub mark_all : List Heard → StreamHealth F → StreamHealth F
  unfolding mark
  mark_all [] h = h
  mark_all ((stream, ts) ∷ heard) h = mark_all heard (mark stream ts h)

  unfoldable pub is_healthy : String → ℤ → StreamHealth F → Bool
  is_healthy stream now h = elim (lookup stream h.last) [
    | none ↦ false
    | some last ↦ leb_ℤ (now -ℤ last) (fl.seconds h.unhealthy_after_seconds)
  ]

  unfoldable pub should_degrade : String → ℤ → StreamHealth F → Bool
  unfolding is_healthy
  should_degrade stream now h = not (is_healthy stream now h)

  marked :
      (stream : String) (heard : List Heard) (h : StreamHealth F)
      → (lookup stream (mark_all heard h).last ≡ last_heard stream heard (lookup stream h.last))
        × ((mark_all heard h).unhealthy_after_seconds ≡ h.unhealthy_after_seconds)
  unfolding mark_all
  marked stream [] h = (refl, refl)
  marked stream ((s, ts) ∷ heard) h =
      let (a, b) = marked stream heard (record h { last = insert s ts h.last }) in
      let e = lookup-insert s stream ts h.last in (a ∙ ap (last_heard stream heard) e, b)

  -- Never heard, or heard too long ago.
  abbrev pub is_silent : F → ℤ → Option ℤ → Bool
  is_silent limit now none = true
  is_silent limit now (some ts) = not (leb_ℤ (now -ℤ ts) (fl.seconds limit))

  degrades :
      (stream : String) (now : ℤ) (h : StreamHealth F)
      → should_degrade stream now h ≡ is_silent h.unhealthy_after_seconds now (lookup stream h.last)
  unfolding should_degrade is_healthy
  degrades stream now h = elim (Option-cases (lookup stream h.last)) [
    | inl e ↦ rw (e, is_healthy) refl
    | inr (ts, e) ↦ rw (e, is_healthy) refl
  ]

  -- After any messages, a stream degrades exactly when it was never heard, or its last message is older
  -- than the limit; messages of other streams do not matter.
  pub should_degrade_lem :
      (stream : String) (heard : List Heard) (now : ℤ) (h : StreamHealth F)
      → should_degrade stream now (mark_all heard h)
        ≡ is_silent h.unhealthy_after_seconds now (last_heard stream heard (lookup stream h.last))
  should_degrade_lem stream heard now h =
      let g = mark_all heard h in
      let (a, b) = marked stream heard h in
      degrades stream now g
      ∙ ap (is_silent g.unhealthy_after_seconds now) a
      ∙ ap (λ l. is_silent l now (last_heard stream heard (lookup stream h.last))) b
