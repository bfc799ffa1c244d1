-- ===== src/LogicalPlan/Constants/Value.antt =====
-- Reducing constants keeps their value and leaves none unreduced.
use mathlib.Core.Path.{subst}
use mathlib.Core.Option.{some-injective}
use promql_engine.Prelude.{
  ◌≡◌, refl, sym, ap, ◌∙◌, Option, none, some, Option-cases, inl, inr, ◌⊎◌, ◌↔◌,
}
use promql_engine.LogicalPlan.Nodes.{
  add, sub, mul, div, pow, modulo, Op, BinaryInfo, Node, number_literal, step_invariant_expr,
  parens, unary, binary,
}
use promql_engine.LogicalPlan.Constants.{
  Floats, apply_unary, apply_binary, unwrap_float, fold_unary, fold_binary, literal_or,
  reduce_binary, reduce_constants, const_value,
}

-- The value of a constant arithmetic expression, which Prometheus gives to it: the operands in the order of the text.
pub data HasValue {F : Type 0} (floats : Floats F) : Node F → F → Type 0 where
  literal : (x : F) → HasValue floats (number_literal x) x
  wrapped : {e : Node F} {x : F} → HasValue floats e x → HasValue floats (parens e) x
  invariant : {e : Node F} {x : F} → HasValue floats e x → HasValue floats (step_invariant_expr e) x
  positive :
      {op : Op} {e : Node F} {x : F}
      → op ≡ add
      → HasValue floats e x
      → HasValue floats (unary op e) x
  negative :
      {op : Op} {e : Node F} {x z : F}
      → op ≡ sub
      → z ≡ floats.neg x
      → HasValue floats e x
      → HasValue floats (unary op e) z
  added :
      (i : BinaryInfo) (l r : Node F) (x y : F) {z : F}
      → i.op ≡ add
      → z ≡ floats.plus x y
      → HasValue floats l x
      → HasValue floats r y
      → HasValue floats (binary i l r) z
  subtracted :
      (i : BinaryInfo) (l r : Node F) (x y : F) {z : F}
      → i.op ≡ sub
      → z ≡ floats.minus x y
      → HasValue floats l x
      → HasValue floats r y
      → HasValue floats (binary i l r) z
  multiplied :
      (i : BinaryInfo) (l r : Node F) (x y : F) {z : F}
      → i.op ≡ mul
      → z ≡ floats.times x y
      → HasValue floats l x
      → HasValue floats r y
      → HasValue floats (binary i l r) z
  divided :
      (i : BinaryInfo) (l r : Node F) (x y : F) {z : F}
      → i.op ≡ div
      → z ≡ floats.over x y
      → HasValue floats l x
      → HasValue floats r y
      → HasValue floats (binary i l r) z
  raised :
      (i : BinaryInfo) (l r : Node F) (x y : F) {z : F}
      → i.op ≡ pow
      → z ≡ floats.power x y
      → HasValue floats l x
      → HasValue floats r y
      → HasValue floats (binary i l r) z
  reduced :
      (i : BinaryInfo) (l r : Node F) (x y : F) {z : F}
      → i.op ≡ modulo
      → z ≡ floats.remainder x y
      → HasValue floats l x
      → HasValue floats r y
      → HasValue floats (binary i l r) z

module _ {F : Type 0} (floats : Floats F) where
  const_value_of_unwrap :
      (n : Node F) {x : F} → unwrap_float n ≡ some x → const_value floats n ≡ some x
  unfolding unwrap_float const_value
  const_value_of_unwrap (number_literal y) h = h
  const_value_of_unwrap (parens e) h = const_value_of_unwrap e h
  const_value_of_unwrap (step_invariant_expr e) h = const_value_of_unwrap e h
  const_value_of_unwrap _ h = absurd (cc h)

  unwrap-literal_or :
      (m : Option F) (n : Node F)
      → (m ≡ none → unwrap_float n ≡ none)
      → unwrap_float (literal_or floats m n) ≡ m
  unfolding unwrap_float
  unwrap-literal_or none n h = h refl
  unwrap-literal_or (some x) n h = refl

  unwrap_binary : (i : BinaryInfo) (l r : Node F) → unwrap_float (binary i l r) ≡ none
  unfolding unwrap_float
  unwrap_binary i l r = refl

  -- The early offer of a binary expression finds a value only if that is the final one.
  early_or_late :
      (op : Op) (a : Option F) (r : Node F)
      → (fold_binary floats op a (unwrap_float r) ≡ none)
        ⊎ (fold_binary floats op a (unwrap_float r)
            ≡ fold_binary floats op a (const_value floats r))
  unfolding fold_binary
  early_or_late op none r = inl refl
  early_or_late op (some x) r = elim (Option-cases (unwrap_float r)) [
    | inl e ↦ inl (rw (e, fold_binary) refl)
    | inr (y, e) ↦ inr (rw (e, const_value_of_unwrap r e) refl)
  ]

  unwrap-reduce_binary :
      (i : BinaryInfo) (l' r r' : Node F)
      → unwrap_float r' ≡ const_value floats r
      → unwrap_float (reduce_binary floats i l' r r')
        ≡ fold_binary floats i.op (unwrap_float l') (const_value floats r)
  unfolding reduce_binary
  unwrap-reduce_binary i l' r r' q = elim (early_or_late i.op (unwrap_float l') r) [
    | inl e ↦ rw (e, reduce_binary) (late ∙ rw q refl)
    | inr e ↦
        unwrap-literal_or _ _
          (λ h. late ∙ ap (fold_binary floats i.op (unwrap_float l')) q ∙ sym e ∙ h)
        ∙ e
  ]
    where
      late :
          unwrap_float (
            literal_or floats
              (fold_binary floats i.op (unwrap_float l') (unwrap_float r'))
              (binary i l' r'))
          ≡ fold_binary floats i.op (unwrap_float l') (unwrap_float r')
      late = unwrap-literal_or _ _ (λ h. unwrap_binary i l' r')

  unwrap-const_value :
      (n : Node F) → unwrap_float (reduce_constants floats n) ≡ const_value floats n
  unfolding reduce_constants const_value unwrap_float
  unwrap-const_value (number_literal x) = refl
  unwrap-const_value (step_invariant_expr e) = unwrap-const_value e
  unwrap-const_value (parens e) =
      unwrap-literal_or (unwrap_float (reduce_constants floats e)) _ (λ h. h) ∙ unwrap-const_value e
  unwrap-const_value (unary op e) =
      unwrap-literal_or _ _ (λ h. refl) ∙ ap (fold_unary floats op) (unwrap-const_value e)
  unwrap-const_value (binary i l r) =
      unwrap-reduce_binary i (reduce_constants floats l) r (reduce_constants floats r)
        (unwrap-const_value r)
      ∙ ap (λ a. fold_binary floats i.op a (const_value floats r)) (unwrap-const_value l)
  unwrap-const_value _ = refl

  fold_unary-some :
      (op : Op) (a : Option F) (z : F)
      → fold_unary floats op a ≡ some z
      → (x : F) × (a ≡ some x) × (apply_unary floats op x ≡ some z)
  unfolding fold_unary
  fold_unary-some op none z h = absurd (cc h)
  fold_unary-some op (some x) z h = (x, refl, h)

  fold_binary-some :
      (op : Op) (a b : Option F) (z : F)
      → fold_binary floats op a b ≡ some z
      → (x y : F) × (a ≡ some x) × (b ≡ some y) × (apply_binary floats op x y ≡ some z)
  unfolding fold_binary
  fold_binary-some op none b z h = absurd (cc h)
  fold_binary-some op (some x) none z h = absurd (cc h)
  fold_binary-some op (some x) (some y) z h = (x, y, refl, refl, h)

  apply_unary-HasValue :
      (op : Op) (e : Node F) (x z : F)
      → apply_unary floats op x ≡ some z
      → HasValue floats e x
      → HasValue floats (unary op e) z
  unfolding apply_unary
  apply_unary-HasValue add e x z h v =
      positive refl (subst (HasValue floats e) (some-injective _ _ h) v)
  apply_unary-HasValue sub e x z h v = negative refl (sym (some-injective _ _ h)) v
  apply_unary-HasValue op e x z h v = absurd (cc h)

  apply_binary-HasValue :
      (op : Op) (i : BinaryInfo) (l r : Node F) (x y z : F)
      → i.op ≡ op
      → apply_binary floats op x y ≡ some z
      → HasValue floats l x
      → HasValue floats r y
      → HasValue floats (binary i l r) z
  unfolding apply_binary
  apply_binary-HasValue add i l r x y z e h v w = added i l r x y e (sym (some-injective _ _ h)) v w
  apply_binary-HasValue sub i l r x y z e h v w =
      subtracted i l r x y e (sym (some-injective _ _ h)) v w
  apply_binary-HasValue mul i l r x y z e h v w =
      multiplied i l r x y e (sym (some-injective _ _ h)) v w
  apply_binary-HasValue div i l r x y z e h v w =
      divided i l r x y e (sym (some-injective _ _ h)) v w
  apply_binary-HasValue pow i l r x y z e h v w =
      raised i l r x y e (sym (some-injective _ _ h)) v w
  apply_binary-HasValue modulo i l r x y z e h v w =
      reduced i l r x y e (sym (some-injective _ _ h)) v w
  apply_binary-HasValue op i l r x y z e h v w = absurd (cc h)

  const_value-HasValue : (n : Node F) (z : F) → const_value floats n ≡ some z → HasValue floats n z
  unfolding const_value
  const_value-HasValue (number_literal x) z h =
      subst (HasValue floats (number_literal x)) (some-injective _ _ h) (literal x)
  const_value-HasValue (parens e) z h = wrapped (const_value-HasValue e z h)
  const_value-HasValue (step_invariant_expr e) z h = invariant (const_value-HasValue e z h)
  const_value-HasValue (unary op e) z h =
      let (x, a, b) = fold_unary-some op (const_value floats e) z h in
      apply_unary-HasValue op e x z b (const_value-HasValue e x a)
  const_value-HasValue (binary i l r) z h =
      let (x, y, a, b, c) =
        fold_binary-some i.op (const_value floats l) (const_value floats r) z h in
      apply_binary-HasValue i.op i l r x y z refl c (const_value-HasValue l x a)
        (const_value-HasValue r y b)
  const_value-HasValue n z h = absurd (cc h)

  folded :
      (i : BinaryInfo) (l r : Node F) (op : Op) (x y z : F)
      → i.op ≡ op
      → const_value floats l ≡ some x
      → const_value floats r ≡ some y
      → apply_binary floats op x y ≡ some z
      → const_value floats (binary i l r) ≡ some z
  unfolding const_value fold_binary
  folded i l r op x y z o a b h =
      ap (λ (c : Op). fold_binary floats c (const_value floats l) (const_value floats r)) o
      ∙ rw (a, b, fold_binary) h

  HasValue-const_value : {n : Node F} {z : F} → HasValue floats n z → const_value floats n ≡ some z
  unfolding const_value apply_binary fold_unary apply_unary
  HasValue-const_value (literal x) = refl
  HasValue-const_value (wrapped v) = HasValue-const_value v
  HasValue-const_value (invariant v) = HasValue-const_value v
  HasValue-const_value (positive o v) = rw (o, HasValue-const_value v) refl
  HasValue-const_value (negative o e v) = rw (o, HasValue-const_value v, e) refl
  HasValue-const_value (added i l r x y o e v w) =
      folded i l r add x y _ o (HasValue-const_value v) (HasValue-const_value w) (ap some (sym e))
  HasValue-const_value (subtracted i l r x y o e v w) =
      folded i l r sub x y _ o (HasValue-const_value v) (HasValue-const_value w) (ap some (sym e))
  HasValue-const_value (multiplied i l r x y o e v w) =
      folded i l r mul x y _ o (HasValue-const_value v) (HasValue-const_value w) (ap some (sym e))
  HasValue-const_value (divided i l r x y o e v w) =
      folded i l r div x y _ o (HasValue-const_value v) (HasValue-const_value w) (ap some (sym e))
  HasValue-const_value (raised i l r x y o e v w) =
      folded i l r pow x y _ o (HasValue-const_value v) (HasValue-const_value w) (ap some (sym e))
  HasValue-const_value (reduced i l r x y o e v w) =
      folded i l r modulo x y _ o (HasValue-const_value v) (HasValue-const_value w)
        (ap some (sym e))

  -- An expression is reduced to a literal, under parentheses and step invariant wrappers, exactly when it is a constant
  -- arithmetic expression, and the literal is its value.
  pub unwrap_float-reduce_constants :
      (n : Node F) (z : F)
      → (unwrap_float (reduce_constants floats n) ≡ some z) ↔ HasValue floats n z
  unwrap_float-reduce_constants n z = (
    λ h. const_value-HasValue n z (sym (unwrap-const_value n) ∙ h),
    λ v. unwrap-const_value n ∙ HasValue-const_value v,
  )
