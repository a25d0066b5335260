-- ===== src/Product/Selection.antt =====
-- Which entry of the product table is selected.
use my_stream_out_app.Base.{
  ℕ, zero, suc, ◌^◌, ◌<◌, ◌≤◌, ◌≡◌, ◌≢◌, ◌⊎◌, refl, inl, inr, ap, true, false, ◌||◌, some, List, [],
  ◌∷◌, arith, ◌%◌, Bool-cases, get_elem?, ◌==◌,
}
use my_stream_out_app.Base.Int.{ℤ, pos, negsuc, pos_part, neg_part, to_unsigned}
use my_stream_out_app.Product.{ProductInformation, stops, setup_product_info, native_set_product_id}
use my_stream_out_app.Product.Table.{
  system_tsx80, default_product, product_information_table, product_info,
}

-- The type of an entry on which the scan does not stop.
abbrev pub IsPassed : ℕ → ProductInformation → Type 0
IsPassed product_id p = (p.product_type ≢ 0) × (p.product_type ≢ product_id)

-- Entry `i` of the table is the product's or the default, and every entry before it is neither.
abbrev pub IsSelected : ℕ → List ProductInformation → ℕ → Type 0
IsSelected product_id [] i = ⊥
IsSelected product_id (p ∷ table) zero = (p.product_type ≡ product_id) ⊎ (p.product_type ≡ 0)
IsSelected product_id (p ∷ table) (suc i) = IsPassed product_id p × IsSelected product_id table i

-- Entry `k` of the table is a default.
abbrev pub HasDefault : List ProductInformation → ℕ → Type 0
HasDefault [] k = ⊥
HasDefault (p ∷ table) zero = p.product_type ≡ 0
HasDefault (p ∷ table) (suc k) = HasDefault table k

stops_default : (product_id t : ℕ) → t ≡ 0 → ((t == 0) || (t == product_id)) ≡ true
stops_default product_id t e = ground arith

stops→ : (product_id t : ℕ) → ((t == 0) || (t == product_id)) ≡ true → (t ≡ product_id) ⊎ (t ≡ 0)
stops→ product_id t e = ground arith

passes→ : (product_id t : ℕ) → ((t == 0) || (t == product_id)) ≡ false → (t ≢ 0) × (t ≢ product_id)
passes→ product_id t e = (λ z. ground arith, λ z. ground arith)

-- In a table with a default entry the scan reads no entry beyond it: it stops at the first entry that
-- is the product's or a default.
pub setup_product_info-IsSelected :
    (product_id : ℕ) (table : List ProductInformation) (k : ℕ)
    → HasDefault table k
    → (i : ℕ) × (setup_product_info product_id table ≡ some i)
      × (i ≤ k)
      × IsSelected product_id table i
unfolding setup_product_info
setup_product_info-IsSelected product_id [] k h = absurd h
setup_product_info-IsSelected product_id (p ∷ table) zero h =
    (0, rw (stops_default product_id p.product_type h) refl, omega arith, inr h)
setup_product_info-IsSelected product_id (p ∷ table) (suc k) h =
    elim (Bool-cases (stops product_id p)) [
      | inl stop ↦ (0, rw (stop) refl, omega arith, stops→ product_id p.product_type stop)
      | inr pass ↦
          let (i, found, bound, first) = setup_product_info-IsSelected product_id table k h in
          (
            suc i,
            rw (pass, found) refl,
            omega arith,
            (passes→ product_id p.product_type pass, first),
          )
    ]

other_id :
    (id : ℤ)
    → id ≢ pos system_tsx80
    → pos_part id < 2 ^ 31
    → neg_part id ≤ 2 ^ 31
    → (system_tsx80 == to_unsigned 64 id) ≡ false
other_id (pos n) h a b =
    let p : n % 2 ^ 64 ≡ n = omega arith in
    rw (p) (elim (Bool-cases (system_tsx80 == n)) [
      | inl e ↦ absurd (h (ap pos (ground arith)))
      | inr e ↦ e
    ])
other_id (negsuc n) h a b = ground arith

-- A product ID from Java other than that of the TSX80 selects the default entry, also a negative one,
-- and product_info gives the entry of the TSX80 all the same.
pub product_info-native_set_product_id :
    (id : ℤ)
    → id ≢ pos system_tsx80
    → pos_part id < 2 ^ 31
    → neg_part id ≤ 2 ^ 31
    → (native_set_product_id id product_information_table ≡ some 1)
      × (get_elem? product_information_table 1 ≡ some default_product)
      × (product_info ≢ default_product)
unfolding native_set_product_id setup_product_info product_info
product_info-native_set_product_id id h a b =
    (rw (other_id id h a b) refl, refl, λ e. absurd (omega (arith, ap (λ p. p.product_type) e)))
