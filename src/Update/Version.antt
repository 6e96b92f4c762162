-- ===== src/Update/Version.antt =====
-- update.rs, `is_newer`: the order of versions.
use remote_input_bridge.Base.{
  ℕ, ◌+◌, ◌<◌, ◌≤◌, ◌≡◌, ◌↔◌, zero, suc, List, [], ◌∷◌, true, false, arith, ◌∙◌, subst, sym, length,
  get_or, Bool-cases, ◌==◌, ltb, inl, inr,
}
use remote_input_bridge.Update.{Text, parts, newer_from, is_newer}

-- That the first lists a larger number than the second at the first place where they differ, with
-- zeros past their ends.
pub record IsAhead (from : ℕ) (left right : List ℕ) : Type 0 where
  pub place : ℕ
  pub after : from ≤ place
  pub larger : get_or right place 0 < get_or left place 0
  pub same : (j : ℕ) → from ≤ j → j < place → get_or left j 0 ≡ get_or right j 0

get_or-past : (xs : List ℕ) (i : ℕ) → length xs ≤ i → get_or xs i 0 ≡ 0
get_or-past [] i h = ground arith
get_or-past (x ∷ xs) zero h = omega arith
get_or-past (x ∷ xs) (suc i) h = get_or-past xs i (omega arith)

equal_or_ahead :
    (left right : List ℕ) (j : ℕ)
    → (get_or left j 0 == get_or right j 0) ≡ true
    → get_or left j 0 ≡ get_or right j 0
equal_or_ahead left right j h = ground arith

newer_from→IsAhead :
    (steps index : ℕ) (left right : List ℕ)
    → newer_from steps index left right ≡ true
    → IsAhead index left right
unfolding newer_from
newer_from→IsAhead zero index left right h = cc
newer_from→IsAhead (suc steps) index left right h =
    elim (Bool-cases (get_or left index 0 == get_or right index 0)) [
      | inl e ↦
          let rest = newer_from→IsAhead steps (suc index) left right (ground arith) in
          record {
            place = rest.place;
            after = omega (arith, rest.after);
            larger = rest.larger;
            same = λ j from below. elim (Bool-cases (j == index)) [
              | inl at ↦ ground (arith, equal_or_ahead left right index e)
              | inr past ↦ rest.same j (ground arith) below
            ];
          }
      | inr e ↦ record {
        place = index;
        after = omega arith;
        larger = ground arith;
        same = λ j from below. absurd (omega arith);
      }
    ]

IsAhead→newer_from :
    (steps index : ℕ) (left right : List ℕ)
    → length left ≤ index + steps
    → length right ≤ index + steps
    → IsAhead index left right
    → newer_from steps index left right ≡ true
unfolding newer_from
IsAhead→newer_from zero index left right hl hr a =
    absurd (omega (arith, a.after, a.larger, get_or-past left a.place (omega (arith, a.after))))
IsAhead→newer_from (suc steps) index left right hl hr a = elim (Bool-cases (index == a.place)) [
  | inl e ↦ ground (arith, a.larger)
  | inr e ↦
      let later : IsAhead (suc index) left right = record {
        place = a.place;
        after = ground (arith, a.after);
        larger = a.larger;
        same = λ j from below. a.same j (omega arith) below;
      } in
      ground (
        arith,
        IsAhead→newer_from steps (suc index) left right (omega arith) (omega arith) later,
        a.same index (omega arith) (ground (arith, a.after)),
      )
]

pub is_newer_iff :
    (candidate current : Text)
    → (is_newer candidate current ≡ true) ↔ IsAhead 0 (parts candidate) (parts current)
unfolding is_newer
is_newer_iff candidate current =
    (newer_from→IsAhead _ 0 _ _, IsAhead→newer_from _ 0 _ _ (omega arith) (omega arith))

IsAhead-trans : (a b c : List ℕ) → IsAhead 0 a b → IsAhead 0 b c → IsAhead 0 a c
IsAhead-trans a b c first second =
    let upto = λ (j : ℕ) (u : j < first.place) (v : j < second.place).
      first.same j (omega arith) u ∙ second.same j (omega arith) v in
    elim (Bool-cases (ltb first.place second.place)) [
      | inl e ↦ record {
        place = first.place;
        after = omega arith;
        larger = ground (arith, first.larger, second.same first.place (omega arith) (ground arith));
        same = λ j from below. upto j below (ground arith);
      }
      | inr e ↦ elim (Bool-cases (ltb second.place first.place)) [
        | inl f ↦ record {
          place = second.place;
          after = omega arith;
          larger =
              ground (arith, second.larger, first.same second.place (omega arith) (ground arith));
          same = λ j from below. upto j (ground arith) below;
        }
        | inr f ↦
            let meet : first.place ≡ second.place = ground arith in
            record {
              place = first.place;
              after = omega arith;
              larger = ground (
                arith,
                first.larger,
                subst (λ i. get_or c i 0 < get_or b i 0) (sym meet) second.larger,
              );
              same = λ j from below. upto j below (omega arith);
            }
      ]
    ]

-- The order of versions is strict and transitive: a version newer than one that is newer than a
-- third is newer than the third, and is not itself older than that.
pub is_newer_strict :
    (a b c : Text)
    → is_newer a b ≡ true
    → is_newer b c ≡ true
    → (is_newer a c ≡ true) × (is_newer c a ≡ false)
is_newer_strict a b c h k =
    let ahead = IsAhead-trans _ _ _ ((is_newer_iff a b).0 h) ((is_newer_iff b c).0 k) in
    (
      (is_newer_iff a c).1 ahead,
      elim (Bool-cases (is_newer c a)) [
        | inl back ↦
            let round = IsAhead-trans _ _ _ ahead ((is_newer_iff c a).0 back) in
            absurd (omega (arith, round.larger))
        | inr older ↦ older
      ],
    )
