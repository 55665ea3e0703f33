-- ===== src/Ir/Types/Layout/Placing.antt =====
-- The loops over the fields of a structure in qumir/ir/type.cpp.
use qumir.Prelude.{
  ℕ, zero, suc, ◌+◌, ◌%◌, ◌^◌, ◌≤◌, ◌<◌, ℤ, Option, some, List, [], ◌∷◌, ◌≡◌, ◌∙◌, refl, arith,
  get_elem?, max,
}
use qumir.Ir.Types.{TypeTable, Eq-kind}
use qumir.Ir.Types.Layout.{align_up, align_of_size, struct_loop, offset_loop}
use qumir.Ir.Types.Layout.AlignUp.{align_up_bounds, align_up_multiple}

module _ (t : TypeTable) (size : ℤ → Option ℕ) where
  -- The fields have sizes, none of them 0, and behind `off` there is room for them and for the gaps
  -- before them in an `int`.
  abbrev pub Fits : List ℤ → ℕ → Type 0
  Fits [] off = off + 16 < 2 ^ 31
  Fits (f ∷ fs) off = (n : ℕ) × (size f ≡ some n) × (0 < n) × Fits fs (off + 15 + n)

  Fits-le : (fs : List ℤ) (off off' : ℕ) → off' ≤ off → Fits fs off → Fits fs off'
  Fits-le [] off off' le h = omega arith
  Fits-le (f ∷ fs) off off' le (n, e, p, h) =
      (n, e, p, Fits-le fs (off + 15 + n) (off' + 15 + n) (omega arith) h)

  Fits-lt : (fs : List ℤ) (off : ℕ) → Fits fs off → off + 16 < 2 ^ 31
  Fits-lt [] off h = h
  Fits-lt (f ∷ fs) off (n, e, p, h) = omega (arith, Fits-lt fs (off + 15 + n) h)

  pub align_bounds :
      (f : ℤ) (n : ℕ) → 0 < n → (0 < align_of_size t f n) × (align_of_size t f n ≤ 16)
  unfolding align_of_size
  align_bounds f n p = ground arith

  -- The place of a field: behind what is before it, by less than 16 bytes.
  pub placed :
      (f : ℤ) (n off : ℕ)
      → 0 < n
      → off + 16 < 2 ^ 31
      → (off ≤ align_up off (align_of_size t f n)) × (align_up off (align_of_size t f n) ≤ off + 15)
  placed f n off p h =
      let a = align_of_size t f n in
      let (lo, hi) = align_bounds f n p in omega (arith, align_up_bounds off a lo (omega arith))

  next_Fits :
      (f : ℤ) (n : ℕ) (fs : List ℤ) (off : ℕ)
      → 0 < n
      → Fits fs (off + 15 + n)
      → Fits fs (align_up off (align_of_size t f n) + n)
  next_Fits f n fs off p h =
      Fits-le fs (off + 15 + n) (align_up off (align_of_size t f n) + n)
        (omega (arith, placed f n off p (omega (arith, Fits-lt fs (off + 15 + n) h)))) h

  -- The loops never move back.
  pub struct_loop_end :
      (fs : List ℤ) (off mx : ℕ) (r : ℕ × ℕ)
      → Fits fs off
      → struct_loop t size fs off mx ≡ some r
      → (off ≤ r.0) × (mx ≤ r.1) × (r.0 + 16 < 2 ^ 31)
  unfolding struct_loop
  struct_loop_end [] off mx r h e = ground arith
  struct_loop_end (f ∷ fs) off mx r (n, q, p, h) e =
      let a = align_of_size t f n in
      let ih =
        struct_loop_end fs (align_up off a + n) (max mx a) r (next_Fits f n fs off p h)
          (rw q at e) in
      omega (arith, ih, placed f n off p (omega (arith, Fits-lt fs (off + 15 + n) h)))

  offset_loop_end :
      (fs : List ℤ) (i off o : ℕ) → Fits fs off → offset_loop t size fs i off ≡ some o → off ≤ o
  unfolding offset_loop
  offset_loop_end [] i off o h e = ground arith
  offset_loop_end (f ∷ fs) zero off o (n, q, p, h) e =
      ground (arith, placed f n off p (omega (arith, Fits-lt fs (off + 15 + n) h)))
  offset_loop_end (f ∷ fs) (suc i) off o (n, q, p, h) e =
      let a = align_of_size t f n in
      let ih = offset_loop_end fs i (align_up off a + n) o (next_Fits f n fs off p h) (rw q at e) in
      omega (arith, ih, placed f n off p (omega (arith, Fits-lt fs (off + 15 + n) h)))

  -- A field has an offset, it ends before the end of the structure and before each later field.
  pub record Placed (fs : List ℤ) (off i n : ℕ) (f : ℤ) : Type 0 where
    pub at : ℕ
    pub found : offset_loop t size fs i off ≡ some at
    pub aligned : (k : ℕ) → align_of_size t f n ≡ 2 ^ k → at % 2 ^ k ≡ 0
    pub ends : (mx : ℕ) (r : ℕ × ℕ) → struct_loop t size fs off mx ≡ some r → at + n ≤ r.0
    pub before : (j o : ℕ) → i < j → offset_loop t size fs j off ≡ some o → at + n ≤ o

  zero_before :
      (g : ℤ) (m : ℕ) (fs : List ℤ) (off : ℕ)
      → 0 < m
      → Fits fs (off + 15 + m)
      → size g ≡ some m
      → (n : ℕ) → m ≡ n
      → (j o : ℕ) → 0 < j
      → offset_loop t size (g ∷ fs) j off ≡ some o
      → align_up off (align_of_size t g m) + n ≤ o
  unfolding offset_loop
  zero_before g m fs off p h q n mn zero o lt w = absurd (omega arith)
  zero_before g m fs off p h q n mn (suc j) o lt w =
      let a = align_of_size t g m in
      omega (
        arith,
        offset_loop_end fs j (align_up off a + m) o (next_Fits g m fs off p h) (rw q at w),
        mn,
      )

  suc_before :
      (g : ℤ) (m : ℕ) (fs : List ℤ) (off : ℕ)
      → size g ≡ some m
      → (i n at : ℕ)
      → ((j o : ℕ)
          → i < j
          → offset_loop t size fs j (align_up off (align_of_size t g m) + m) ≡ some o
          → at + n ≤ o)
      → (j o : ℕ) → suc i < j
      → offset_loop t size (g ∷ fs) j off ≡ some o
      → at + n ≤ o
  unfolding offset_loop
  suc_before g m fs off q i n at ih zero o lt w = absurd (omega arith)
  suc_before g m fs off q i n at ih (suc j) o lt w = ih j o (omega arith) (rw q at w)

  offset_loop_total :
      (fs : List ℤ) (i off : ℕ) → Fits fs off → (o : ℕ) × (offset_loop t size fs i off ≡ some o)
  unfolding offset_loop
  offset_loop_total [] i off h = (off, refl)
  offset_loop_total (f ∷ fs) zero off (n, q, p, h) = (align_up off (align_of_size t f n), rw q)
  offset_loop_total (f ∷ fs) (suc i) off (n, q, p, h) =
      let a = align_of_size t f n in
      let (o, e) = offset_loop_total fs i (align_up off a + n) (next_Fits f n fs off p h) in
      (o, rw q e)

  pub loop-Placed :
      (fs : List ℤ) (off i n : ℕ) (f : ℤ)
      → Fits fs off
      → get_elem? fs i ≡ some f
      → size f ≡ some n
      → Placed fs off i n f
  unfolding offset_loop struct_loop
  loop-Placed [] off i n f h e q = absurd (ground arith)
  loop-Placed (g ∷ fs) off zero n f (m, q', p, h) e q =
      let a = align_of_size t g m in
      let fg : g ≡ f = cc in
      let mn : m ≡ n = cc in
      let same : align_of_size t g m ≡ align_of_size t f n = cc in
      let room = Fits-lt fs (off + 15 + m) h in
      let (lo, hi) = align_bounds g m p in
      record {
        at = align_up off a;
        found = rw q';
        aligned = λ k w.
            let w' : align_of_size t g m ≡ 2 ^ k = same ∙ w in
            rw w' (
              align_up_multiple off k (rw (← w') lo)
                (let b : 2 ^ k ≤ 16 = rw (← w') hi in omega arith));
        ends = λ mx r w.
            let e =
              struct_loop_end fs (align_up off a + m) (max mx a) r (next_Fits g m fs off p h)
                (rw q' at w) in
            omega (arith, e, mn);
        before = λ j o lt w. zero_before g m fs off p h q' n mn j o lt w;
      }
  loop-Placed (g ∷ fs) off (suc i) n f (m, q', p, h) e q =
      let a = align_of_size t g m in
      let ih = loop-Placed fs (align_up off a + m) i n f (next_Fits g m fs off p h) e q in
      record {
        at = ih.at;
        found = rw q' ih.found;
        aligned = ih.aligned;
        ends = λ mx r w. ih.ends (max mx a) r (rw q' at w);
        before = λ j o lt w. suc_before g m fs off q' i n ih.at ih.before j o lt w;
      }
