-- ===== src/Text/Unique.antt =====
-- Lines without repetitions: `uniquify_lines` of plugins/text/src/core/mod.rs.
use dotfiles_nix.Base.{
  ◌≡◌, ◌≢◌, refl, sym, ap, ◌∙◌, true, false, List, [], ◌∷◌, Distinct, Absent, arith, ite, if_pos,
  if_neg, Bool-cases, inl, inr, subst,
}
use dotfiles_nix.Text.{contains, uniquify_from, uniquify_lines}

module _ {A : Type 0} (dec : Discrete A) where
  -- The list without an element.
  abbrev pub without : A → List A → List A
  without x [] = []
  without x (y ∷ ys) = ite (dec y x) (without x ys) (y ∷ without x ys)

  -- Every element at the place of its first occurrence.
  abbrev pub firsts : List A → List A
  firsts [] = []
  firsts (x ∷ xs) = x ∷ without x (firsts xs)

  -- The list without the elements of another.
  abbrev without_all : List A → List A → List A
  without_all seen [] = []
  without_all seen (y ∷ ys) = elim (contains dec y seen) [
    | true ↦ without_all seen ys
    | false ↦ y ∷ without_all seen ys
  ]

  contains_other :
      (x y : A) (seen : List A) → x ≢ y → contains dec y (x ∷ seen) ≡ contains dec y seen
  contains_other x y seen n = ground arith

  seen_already :
      (x : A) (seen ys : List A)
      → contains dec x seen ≡ true
      → without_all seen (without x ys) ≡ without_all seen ys
  seen_already x seen [] h = refl
  seen_already x seen (y ∷ ys) h = elim (dec y x) [
    | yes e ↦ ground (arith, e, h, ap (λ z. contains dec z seen) e, seen_already x seen ys h)
    | no n ↦ ground (arith, n, seen_already x seen ys h)
  ]

  seen_now :
      (x : A) (seen ys : List A) → without_all seen (without x ys) ≡ without_all (x ∷ seen) ys
  seen_now x seen [] = refl
  seen_now x seen (y ∷ ys) = ground (arith, seen_now x seen ys)

  uniquify_from-firsts :
      (seen xs : List A) → uniquify_from dec seen xs ≡ without_all seen (firsts xs)
  unfolding uniquify_from
  uniquify_from-firsts seen [] = refl
  uniquify_from-firsts seen (x ∷ xs) = elim (Bool-cases (contains dec x seen)) [
    | inl h ↦
        rw (h, uniquify_from, without_all)
          (uniquify_from-firsts seen xs ∙ sym (seen_already x seen (firsts xs) h))
    | inr h ↦
        rw (h, uniquify_from, without_all)
          (ap (λ r. x ∷ r) (uniquify_from-firsts (x ∷ seen) xs ∙ sym (seen_now x seen (firsts xs))))
  ]

  without_none : (ys : List A) → without_all [] ys ≡ ys
  without_none [] = refl
  without_none (y ∷ ys) = ap (λ r. y ∷ r) (without_none ys)

  Absent-without : (a x : A) (ys : List A) → Absent a ys → Absent a (without x ys)
  Absent-without a x [] h = tt
  Absent-without a x (y ∷ ys) h = elim (dec y x) [
    | yes e ↦ rw (if_pos (dec y x) e) (Absent-without a x ys h.1)
    | no n ↦ rw (if_neg (dec y x) n) (h.0, Absent-without a x ys h.1)
  ]

  Absent-without_self : (x : A) (ys : List A) → Absent x (without x ys)
  Absent-without_self x [] = tt
  Absent-without_self x (y ∷ ys) = elim (dec y x) [
    | yes e ↦ rw (if_pos (dec y x) e) (Absent-without_self x ys)
    | no n ↦ rw (if_neg (dec y x) n) (n, Absent-without_self x ys)
  ]

  without-Distinct : (x : A) (ys : List A) → Distinct ys → Distinct (without x ys)
  without-Distinct x [] h = tt
  without-Distinct x (y ∷ ys) h = elim (dec y x) [
    | yes e ↦ rw (if_pos (dec y x) e) (without-Distinct x ys h.1)
    | no n ↦ rw (if_neg (dec y x) n) (Absent-without y x ys h.0, without-Distinct x ys h.1)
  ]

  firsts-Distinct : (xs : List A) → Distinct (firsts xs)
  firsts-Distinct [] = tt
  firsts-Distinct (x ∷ xs) =
      (Absent-without_self x (firsts xs), without-Distinct x (firsts xs) (firsts-Distinct xs))

  -- The lines are left at the places of their first occurrences, and none is left twice.
  pub uniquify_lines_lem :
      (lines : List A)
      → (uniquify_lines dec lines ≡ firsts lines) × Distinct (uniquify_lines dec lines)
  unfolding uniquify_lines
  uniquify_lines_lem lines =
      let same = uniquify_from-firsts [] lines ∙ without_none (firsts lines) in
      (same, subst Distinct (sym same) (firsts-Distinct lines))
