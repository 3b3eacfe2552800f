-- ===== src/Agents/Staging.antt =====
-- Approvals write into the staging directory and nowhere else: aimos/agents/proposals.py.
use Prim.Native.Char.{Char, code}
use Prim.Native.String.{◌++◌ as concat, count}
use text.Mathlib.TextLemmas.{nil-append, cons-append, append-nil, append_assoc, length-append}
use aimos.Prelude.Text.{has_letter}
use aimos.Prelude.{
  String, ◌≡◌, refl, sym, ap, ◌∙◌, inl, inr, Bool, true, false, ◌<◌, ◌==◌, subst, List, [], ◌∷◌,
  ◌++◌, str_eq, arith, eq_iff, eq_refl, Bool-cases,
}
use aimos.Agents.{
  Proposal, Parts, Files, parts_from, joined, same_parts, has_config, staged_path, approve, reject,
}

-- The directory of a path.
abbrev pub parent : Parts → Parts
parent [] = []
parent (x ∷ []) = []
parent (x ∷ y ∷ xs) = x ∷ parent (y ∷ xs)

parent-append_one : (d : Parts) (x : String) → parent (d ++ x ∷ []) ≡ d
parent-append_one [] x = refl
parent-append_one (y ∷ []) x = refl
parent-append_one (y ∷ z ∷ d) x = ap (λ ps. y ∷ ps) (parent-append_one (z ∷ d) x)

same_parts_eq : (p q : Parts) → same_parts p q ≡ true → p ≡ q
same_parts_eq [] [] h = refl
same_parts_eq [] (y ∷ q) h = ground (arith, h)
same_parts_eq (x ∷ p) [] h = ground (arith, h)
same_parts_eq (x ∷ p) (y ∷ q) h = elim (Bool-cases (str_eq x y)) [
  | inr other ↦ ground (arith, h, other)
  | inl e ↦
      let rest : same_parts p q ≡ true = ground (arith, h, e) in
      rw ((eq_iff x y).0 e, same_parts_eq p q rest) refl
]

has_letter-concat :
    (s t : String)
    → has_letter b'/' s ≡ false
    → has_letter b'/' t ≡ false
    → has_letter b'/' (concat s t) ≡ false
unfolding has_letter
has_letter-concat String.[] t h k = rw (nil-append t) k
has_letter-concat (String.◌∷◌ c s) t h k =
    rw (cons-append c s t) (ground (arith, h, has_letter-concat s t (ground (arith, h)) k))

concat_step :
    (w : String) (c : Char) (s : String)
    → concat (concat w (String.◌∷◌ c String.[])) s ≡ concat w (String.◌∷◌ c s)
concat_step w c s =
    append_assoc w (String.◌∷◌ c String.[]) s
    ∙ ap (concat w) (cons-append c String.[] s ∙ ap (String.◌∷◌ c) (nil-append s))

-- A text without a slash that is neither empty nor a dot is one part.
parts_from_plain :
    (w s : String)
    → has_letter b'/' s ≡ false
    → str_eq (concat w s) "" ≡ false
    → str_eq (concat w s) "." ≡ false
    → parts_from w s ≡ concat w s ∷ []
unfolding parts_from has_letter
parts_from_plain w String.[] h e f =
    let same : concat w String.[] ≡ w = append-nil w in
    let e' : str_eq w "" ≡ false = subst (λ x. str_eq x "" ≡ false) same e in
    let f' : str_eq w "." ≡ false = subst (λ x. str_eq x "." ≡ false) same f in
    rw (e', f') (ap (λ x. x ∷ []) (sym same))
parts_from_plain w (String.◌∷◌ c s) h e f =
    let step = concat_step w c s in
    let rest : parts_from (concat w (String.◌∷◌ c String.[])) s
        ≡ concat (concat w (String.◌∷◌ c String.[])) s ∷ [] =
      parts_from_plain (concat w (String.◌∷◌ c String.[])) s (ground (arith, h))
        (subst (λ x. str_eq x "" ≡ false) (sym step) e)
        (subst (λ x. str_eq x "." ≡ false) (sym step) f) in
    let here : (code c == b'/') ≡ false = ground (arith, h) in
    rw (here) (rest ∙ ap (λ x. x ∷ []) step)

-- The name of a staged file is neither empty nor a dot.
staged_name : (id t : String) → count t < 2 → str_eq (concat id ".staged.yaml") t ≡ false
staged_name id t short = elim (Bool-cases (str_eq (concat id ".staged.yaml") t)) [
  | inr other ↦ other
  | inl e ↦
      let same = (eq_iff (concat id ".staged.yaml") t).0 e in
      absurd (omega (arith, short, ap count same, length-append id ".staged.yaml"))
]

suffix_plain : has_letter b'/' ".staged.yaml" ≡ false
unfolding has_letter
suffix_plain = refl

joined_relative :
    (d : Parts) (c : Char) (s : String)
    → (code c == b'/') ≡ false
    → joined d (String.◌∷◌ c s) ≡ d ++ parts_from "" (String.◌∷◌ c s)
unfolding joined
joined_relative d c s h = ground (arith, h)

starts_plain :
    (c : Char) (s : String) → has_letter b'/' (String.◌∷◌ c s) ≡ false → (code c == b'/') ≡ false
unfolding has_letter
starts_plain c s h = ground (arith, h)

joined_plain :
    (d : Parts) (s : String)
    → has_letter b'/' s ≡ false
    → str_eq s "" ≡ false
    → str_eq s "." ≡ false
    → joined d s ≡ d ++ s ∷ []
joined_plain d String.[] h e f = absurd (ground (arith, e, eq_refl ""))
joined_plain d (String.◌∷◌ c s) h e f =
    let all = nil-append (String.◌∷◌ c s) in
    let parts =
      parts_from_plain "" (String.◌∷◌ c s) h (subst (λ x. str_eq x "" ≡ false) (sym all) e)
        (subst (λ x. str_eq x "." ≡ false) (sym all) f) in
    joined_relative d c s (starts_plain c s h) ∙ ap (λ ps. d ++ ps) (parts ∙ ap (λ x. x ∷ []) all)

-- A call of an operator on one proposal.
pub data Review : Type 0 where
  approves : Bool → Bool → Parts → Review
  rejects : String → Review

module _ {F : Type 0} (to_yaml : Proposal F → String) where
  abbrev pub review : Review → Proposal F → Files → Proposal F × Files
  review (approves makes writes d) p files =
      let (_, p', files') = approve to_yaml makes writes d p files in (p', files')
  review (rejects reason) p files = ((reject reason p).1, files)

  unfoldable pub review_all : List (Review × Proposal F) → Files → Files
  review_all [] files = files
  review_all ((r, p) ∷ rs) files = review_all rs (review r p files).1

  -- No id of a proposal has a slash.
  abbrev pub NoSlashes : List (Review × Proposal F) → Type 0
  NoSlashes [] = Unit
  NoSlashes ((r, p) ∷ rs) = (has_letter b'/' p.proposal_id ≡ false) × NoSlashes rs

  staged_in :
      (p : Proposal F) (d : Parts)
      → has_letter b'/' p.proposal_id ≡ false
      → parent (staged_path to_yaml p d) ≡ d
  unfolding staged_path
  staged_in p d h =
      ap parent (
        joined_plain d (concat p.proposal_id ".staged.yaml") no_slash
          (staged_name p.proposal_id "" (omega arith))
          (staged_name p.proposal_id "." (omega arith)))
      ∙ parent-append_one d (concat p.proposal_id ".staged.yaml")
    where
      no_slash : has_letter b'/' (concat p.proposal_id ".staged.yaml") ≡ false
      no_slash = has_letter-concat p.proposal_id ".staged.yaml" h suffix_plain

  approve_keeps :
      (makes writes : Bool) (d : Parts) (p : Proposal F) (files : Files) (q : Parts)
      → has_letter b'/' p.proposal_id ≡ false
      → has_config (parent q) ≡ true
      → (approve to_yaml makes writes d p files).2 q ≡ files q
  unfolding approve
  approve_keeps makes writes d p files q plain h =
      elim (Bool-cases (same_parts q (staged_path to_yaml p d))) [
        | inr other ↦ ground (arith, other)
        | inl e ↦
            let at : parent q ≡ d =
              ap parent (same_parts_eq q (staged_path to_yaml p d) e) ∙ staged_in p d plain in
            let refused : has_config d ≡ true = ap has_config (sym at) ∙ h in
            ground (arith, refused)
      ]

  -- No approvals and rejections, in any order, with any staging directories, of proposals whose ids have
  -- no slash, change a file of a directory whose path has a part `config`.
  pub review_all_keeps :
      (rs : List (Review × Proposal F)) (files : Files) (q : Parts)
      → NoSlashes rs
      → has_config (parent q) ≡ true
      → review_all rs files q ≡ files q
  unfolding review_all
  review_all_keeps [] files q plain h = refl
  review_all_keeps ((approves makes writes d, p) ∷ rs) files q plain h =
      review_all_keeps rs (approve to_yaml makes writes d p files).2 q plain.1 h
      ∙ approve_keeps makes writes d p files q plain.0 h
  review_all_keeps ((rejects reason, p) ∷ rs) files q plain h =
      review_all_keeps rs files q plain.1 h
