-- ===== src/Upstream/Json/Search.antt =====
-- What the search finds: a field `result` that looks like an image, if there is one anywhere.
use shadraw.Base.{
  String, ◌≡◌, ◌≢◌, refl, sym, ◌∙◌, ◌⊎◌, inl, inr, true, false, str_eq, eq_iff, Bool-cases,
}
use shadraw.Upstream.Json.{
  Json, Items, Fields, str, number, flag, array, object, other, no_items, item, no_fields, field,
  looks_like_image, own_result, first_of, find_result_base64, find_in_items, find_in_fields,
}

-- The texts of the `result` fields that look like an image, anywhere in a value.
abbrev pub IsResult : String → Json → String → Type 0
IsResult key (str s) r = (key ≡ "result") × (looks_like_image s ≡ true) × (s ≡ r)
IsResult key _ r = ⊥

abbrev mutual
  pub Occurs : String → Json → Type 0
  Occurs r (array xs) = OccursIn r xs
  Occurs r (object fs) = OccursAt r fs
  Occurs r _ = ⊥

  pub OccursIn : String → Items → Type 0
  OccursIn r no_items = ⊥
  OccursIn r (item x xs) = Occurs r x ⊎ OccursIn r xs

  pub OccursAt : String → Fields → Type 0
  OccursAt r no_fields = ⊥
  OccursAt r (field key x fs) = IsResult key x r ⊎ (Occurs r x ⊎ OccursAt r fs)

true_ne_false : true ≢ false
true_ne_false h = cc

looks_ne : (s : String) → looks_like_image s ≡ true → s ≢ ""
looks_ne s e h = true_ne_false (sym e ∙ (rw h refl))

-- What holds of either text, where it is not empty, holds of the first that is not.
first_of-elim :
    (P : String → Type 0) (a b : String)
    → (a ≢ "" → P a)
    → (b ≢ "" → P b)
    → first_of a b ≢ ""
    → P (first_of a b)
first_of-elim P a b p q = elim (Bool-cases (str_eq a "")) [ inl e ↦ rw e q | inr e ↦ rw e p ]

-- If the first text that is not empty is empty, both are.
first_of-both : (a b : String) → first_of a b ≡ "" → (a ≡ "") × (b ≡ "")
first_of-both a b = elim (Bool-cases (str_eq a "")) [
  | inl e ↦ rw e (λ h. ((eq_iff a "").0 e, h))
  | inr e ↦ rw e (λ h. absurd (true_ne_false (sym ((eq_iff a "").1 h) ∙ e)))
]

own_result-IsResult :
    (key : String) (x : Json) → own_result key x ≢ "" → IsResult key x (own_result key x)
unfolding own_result
own_result-IsResult key (str s) = elim (Bool-cases (str_eq key "result")) [
  | inl e ↦ elim (Bool-cases (looks_like_image s)) [
    | inl f ↦ rw (e, f) (λ ne. ((eq_iff key "result").0 e, refl, refl))
    | inr f ↦ rw (e, f) (λ ne. absurd (ne refl))
  ]
  | inr e ↦ rw e (λ ne. absurd (ne refl))
]
own_result-IsResult key (array xs) = λ ne. absurd (ne refl)
own_result-IsResult key (object fs) = λ ne. absurd (ne refl)
own_result-IsResult key (number x) = λ ne. absurd (ne refl)
own_result-IsResult key (flag b) = λ ne. absurd (ne refl)
own_result-IsResult key other = λ ne. absurd (ne refl)

mutual
  unfolding find_result_base64 find_in_items find_in_fields

  pub find_result_base64-Occurs :
      (x : Json) → find_result_base64 x ≢ "" → Occurs (find_result_base64 x) x
  find_result_base64-Occurs (str s) ne = ne refl
  find_result_base64-Occurs (array xs) ne = find_in_items-OccursIn xs ne
  find_result_base64-Occurs (object fs) ne = find_in_fields-OccursAt fs ne
  find_result_base64-Occurs (number x) ne = ne refl
  find_result_base64-Occurs (flag b) ne = ne refl
  find_result_base64-Occurs other ne = ne refl

  find_in_items-OccursIn : (xs : Items) → find_in_items xs ≢ "" → OccursIn (find_in_items xs) xs
  find_in_items-OccursIn no_items ne = ne refl
  find_in_items-OccursIn (item x xs) ne =
      first_of-elim (λ r. Occurs r x ⊎ OccursIn r xs) (find_result_base64 x) (find_in_items xs)
        (λ a. inl (find_result_base64-Occurs x a)) (λ b. inr (find_in_items-OccursIn xs b)) ne

  find_in_fields-OccursAt : (fs : Fields) → find_in_fields fs ≢ "" → OccursAt (find_in_fields fs) fs
  find_in_fields-OccursAt no_fields ne = ne refl
  find_in_fields-OccursAt (field key x fs) ne =
      first_of-elim (λ r. IsResult key x r ⊎ (Occurs r x ⊎ OccursAt r fs)) (own_result key x)
        (first_of (find_result_base64 x) (find_in_fields fs))
        (λ a. inl (own_result-IsResult key x a))
        (λ b. inr (
          first_of-elim (λ r. Occurs r x ⊎ OccursAt r fs) (find_result_base64 x) (find_in_fields fs)
            (λ c. inl (find_result_base64-Occurs x c)) (λ d. inr (find_in_fields-OccursAt fs d)) b))
        ne

-- A result field is not passed over.
IsResult-own_result :
    (key : String) (x : Json) (r : String) → IsResult key x r → own_result key x ≢ ""
unfolding own_result
IsResult-own_result key (str s) r (k, l, _) = rw ((eq_iff key "result").1 k, l) (looks_ne s l)
IsResult-own_result key (array xs) r i = absurd i
IsResult-own_result key (object fs) r i = absurd i
IsResult-own_result key (number x) r i = absurd i
IsResult-own_result key (flag b) r i = absurd i
IsResult-own_result key other r i = absurd i

mutual
  unfolding find_result_base64 find_in_items find_in_fields

  pub Occurs-find_result_base64 : (x : Json) (r : String) → Occurs r x → find_result_base64 x ≢ ""
  Occurs-find_result_base64 (str s) r o = absurd o
  Occurs-find_result_base64 (array xs) r o = OccursIn-find_in_items xs r o
  Occurs-find_result_base64 (object fs) r o = OccursAt-find_in_fields fs r o
  Occurs-find_result_base64 (number x) r o = absurd o
  Occurs-find_result_base64 (flag b) r o = absurd o
  Occurs-find_result_base64 other r o = absurd o

  OccursIn-find_in_items : (xs : Items) (r : String) → OccursIn r xs → find_in_items xs ≢ ""
  OccursIn-find_in_items no_items r o = absurd o
  OccursIn-find_in_items (item x xs) r o = λ h.
      let both = first_of-both (find_result_base64 x) (find_in_items xs) h in
      elim o [
        | inl a ↦ Occurs-find_result_base64 x r a both.0
        | inr b ↦ OccursIn-find_in_items xs r b both.1
      ]

  OccursAt-find_in_fields : (fs : Fields) (r : String) → OccursAt r fs → find_in_fields fs ≢ ""
  OccursAt-find_in_fields no_fields r o = absurd o
  OccursAt-find_in_fields (field key x fs) r o = λ h.
      let own =
        first_of-both (own_result key x) (first_of (find_result_base64 x) (find_in_fields fs)) h in
      let both = first_of-both (find_result_base64 x) (find_in_fields fs) own.1 in
      elim o [
        | inl a ↦ IsResult-own_result key x r a own.0
        | inr (inl b) ↦ Occurs-find_result_base64 x r b both.0
        | inr (inr c) ↦ OccursAt-find_in_fields fs r c both.1
      ]

-- The search gives the empty text exactly where no `result` field, at any depth, holds a text that
-- looks like an image, and else one of the texts of those fields.
pub find_result_base64-cases :
    (x : Json)
    → ((find_result_base64 x ≡ "") × ((r : String) → ¬ Occurs r x))
      ⊎ Occurs (find_result_base64 x) x
find_result_base64-cases x = elim (Bool-cases (str_eq (find_result_base64 x) "")) [
  | inl e ↦
      let none_found = (eq_iff (find_result_base64 x) "").0 e in
      inl (none_found, (λ r o. Occurs-find_result_base64 x r o none_found))
  | inr e ↦ inr (
      find_result_base64-Occurs x
        (λ h. true_ne_false (sym ((eq_iff (find_result_base64 x) "").1 h) ∙ e)))
]
