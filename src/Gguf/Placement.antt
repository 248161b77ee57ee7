-- ===== src/Gguf/Placement.antt =====
-- The tensors that the parser accepts lie in the file, each with the size of its type and shape.
use mem_vanta.Prelude.{
  ℕ, ◌+◌, ◌%◌, ◌≤◌, ◌<◌, ◌≡◌, refl, sym, subst, false, not, ◌||◌, ◌&&◌, List, [], ◌∷◌, ◌++◌, arith,
  ok, ltb, ◌==◌, sub64, add64, u64_mod, u64_max, add64_lem, sub64_lem, >>=-eq-ok, throw_if-eq-ok,
  ok-injective, get_or, All,
}
use mem_vanta.Gguf.Types.{GgufTensor}
use mem_vanta.Gguf.Sizes.{elements, ggml_tensor_nbytes, quant_row_block}
use mem_vanta.Gguf.Tensors.{Tmp, Table, has_key, add_tensor, place, place_all}

-- Where a tensor lies, and that its size is that of its type and dimensions.
pub record IsPlaced (size data_offset : ℕ) (x : GgufTensor) : Type 0 where
  pub above : data_offset ≤ x.offset
  pub inside : x.offset + x.nbytes ≤ size
  pub rows :
      (ltb 1 (quant_row_block x.kind) && not (get_or x.dims 0 1 % quant_row_block x.kind == 0))
      ≡ false
  pub shape : (n : ℕ) × (elements x.dims ≡ ok n) × (ggml_tensor_nbytes x.kind n ≡ ok x.nbytes)

inside_file :
    (size offset nbytes : ℕ)
    → size < u64_mod
    → (ltb size offset || ltb (sub64 size offset) nbytes) ≡ false
    → offset + nbytes ≤ size
inside_file size offset nbytes w h =
    let le : offset ≤ size = ground arith in ground (arith, sub64_lem size offset w le)

above_offset :
    (data_offset rel : ℕ)
    → data_offset < u64_mod
    → ltb (sub64 u64_max data_offset) rel ≡ false
    → add64 data_offset rel ≡ data_offset + rel
above_offset data_offset rel w h =
    add64_lem data_offset rel
      (ground (arith, sub64_lem u64_max data_offset (omega arith) (omega arith)))

-- One round adds one tensor, under a name that is new.
pub place-eq-ok :
    (size data_offset : ℕ) (t : Table) (d : Tmp) {t' : Table}
    → size < u64_mod
    → data_offset < u64_mod
    → place size data_offset t d ≡ ok t'
    → (x : GgufTensor) × (t' ≡ add_tensor t x)
      × (x.name ≡ d.name)
      × (has_key x.name t.index ≡ false)
      × IsPlaced size data_offset x
unfolding place
place-eq-ok size data_offset t d w w' h =
    let (_, rows, h1) = >>=-eq-ok _ _ h in
    let (_, rel, h2) = >>=-eq-ok _ _ h1 in
    let (n, count, h3) = >>=-eq-ok _ _ h2 in
    let (nbytes, size_of, h4) = >>=-eq-ok _ _ h3 in
    let (_, bounds, h5) = >>=-eq-ok _ _ h4 in
    let (_, fresh, h6) = >>=-eq-ok _ _ h5 in
    let offset = add64 data_offset d.rel in
    let at = above_offset data_offset d.rel w' (throw_if-eq-ok _ _ rel) in
    let x : GgufTensor = record {
      name = d.name;
      dims = d.dims;
      kind = d.kind;
      offset = offset;
      nbytes = nbytes;
    } in
    (
      x,
      sym (ok-injective h6),
      refl,
      throw_if-eq-ok _ _ fresh,
      record {
        above = omega (arith, at);
        inside = inside_file size offset nbytes w (throw_if-eq-ok _ _ bounds);
        rows = throw_if-eq-ok _ _ rows;
        shape = (n, count, size_of);
      },
    )

All-append {ℓ κ} :
    {A : Type ℓ} (P : A → Type κ) (xs : List A) (x : A) → All P xs → P x → All P (xs ++ x ∷ [])
All-append P [] x h p = (p, tt)
All-append P (y ∷ ys) x h p = (h.0, All-append P ys x h.1 p)

-- All rounds.
pub place_all-IsPlaced :
    (size data_offset : ℕ) (ds : List Tmp) (t : Table) {t' : Table}
    → size < u64_mod
    → data_offset < u64_mod
    → All (IsPlaced size data_offset) t.tensors
    → place_all size data_offset t ds ≡ ok t'
    → All (IsPlaced size data_offset) t'.tensors
unfolding place_all add_tensor
place_all-IsPlaced size data_offset [] t w w' placed h =
    subst (λ (t' : Table). All (IsPlaced size data_offset) t'.tensors) (ok-injective h) placed
place_all-IsPlaced size data_offset (d ∷ ds) t w w' placed h =
    let (t1, first, rest) = >>=-eq-ok _ _ h in
    let (x, e, _, _, at) = place-eq-ok size data_offset t d w w' first in
    place_all-IsPlaced size data_offset ds t1 w w'
      (subst (λ (t' : Table). All (IsPlaced size data_offset) t'.tensors) (sym e)
        (All-append (IsPlaced size data_offset) t.tensors x placed at))
      rest
