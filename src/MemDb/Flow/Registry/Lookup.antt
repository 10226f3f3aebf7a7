-- ===== src/MemDb/Flow/Registry/Lookup.antt =====
-- A table that was created is found by its name.
use lab.Prelude.{
  ℕ, suc, ◌+◌, ◌%◌, ◌^◌, ◌≤◌, ◌≡◌, refl, leb, lt→ltb, true, List, ◌∷◌, some, Bytes, length, take,
  arith,
}
use lab.MemDb.Outcome.{ok}
use lab.MemDb.Layouts.Memory.{read, bytes_eq_refl}
use lab.MemDb.Layouts.ArrayLayout.{ArrayLayout, construct, max_buff_sz}
use lab.MemDb.Layouts.Header.{ColumnDef}
use lab.MemDb.Flow.{NetworkMsg, TblNm2DataBuff, find_tb_idx, find_layout}
use lab.MemDb.Flow.Create.{Column, read_columns}
use lab.MemDb.Flow.Registry.{register, init_registry, header_of, handle_create}

le→leb : (a b : ℕ) → a ≤ b → leb a b ≡ true
le→leb a b h = ground arith

-- The first name of a registry is found at the index 0.
found_first {ℓ} :
    {A : Type ℓ} (msg : NetworkMsg) (names : List Bytes) (tables : List A) (lay : A)
    → find_layout
        (record {
          tb_nm = take (msg.lay_nm_sz % 2 ^ 16) msg.buff ∷ names;
          data_at = lay ∷ tables;
          indx = 1;
        })
        msg
      ≡ ok (some lay)
unfolding find_layout find_tb_idx
found_first msg names tables lay = rw (bytes_eq_refl (take (msg.lay_nm_sz % 2 ^ 16) msg.buff)) refl

register-found {ℓ} :
    {A : Type ℓ} (msg : NetworkMsg) (name : Bytes) (names : List Bytes) (table : A)
    (tables : List A) (lay : A) (indx : ℕ)
    → msg.lay_nm_sz ≤ length msg.buff
    → msg.lay_nm_sz ≤ max_buff_sz
    → (t : TblNm2DataBuff A) × (register
          (init_registry (record { tb_nm = name ∷ names; data_at = table ∷ tables; indx = indx }))
          msg
          lay
        ≡ ok t)
      × (find_layout t msg ≡ ok (some lay))
      × (t.indx ≡ 1)
unfolding register read
register-found msg name names table tables lay indx h l =
    let fits = le→leb msg.lay_nm_sz max_buff_sz l in
    let inside = le→leb (0 + msg.lay_nm_sz) (length msg.buff) (omega arith) in
    let short : msg.lay_nm_sz % 2 ^ 16 ≡ msg.lay_nm_sz = omega arith in
    let first = lt→ltb 0 (suc (length names)) (omega arith) in
    let first' = lt→ltb 0 (suc (length tables)) (omega arith) in
    (
      record {
        tb_nm = take (msg.lay_nm_sz % 2 ^ 16) msg.buff ∷ names;
        data_at = lay ∷ tables;
        indx = 1;
      },
      rw (fits, inside, short, first, first') refl,
      found_first msg names tables lay,
      refl,
    )

-- Creating a table whose columns are read from the message, and whose layout is built, returns 0. The
-- table is found, from then on, by the name that the message has, and it is the only one registered,
-- whatever was registered before. The name fits the message and the buffer of a name.
-- What the stack held of the header is any.
pub handle_create-found :
    (long_sz : ℕ) (msg : NetworkMsg) (columns : List Column) (name : Bytes) (names : List Bytes)
    (stack : List ColumnDef) (chunk table lay : ArrayLayout) (tables : List ArrayLayout) (indx : ℕ)
    → msg.lay_nm_sz ≤ length msg.buff
    → msg.lay_nm_sz ≤ max_buff_sz
    → read_columns long_sz (msg.param_sz + 1) msg 0 0 ≡ some (ok (some columns))
    → construct (header_of stack columns) chunk ≡ ok lay
    → (t : TblNm2DataBuff ArrayLayout) × (handle_create long_sz
          (record { tb_nm = name ∷ names; data_at = table ∷ tables; indx = indx })
          stack
          chunk
          msg
        ≡ some (ok (true, t)))
      × (find_layout t msg ≡ ok (some lay))
      × (t.indx ≡ 1)
unfolding handle_create
handle_create-found long_sz msg columns name names stack chunk table lay tables indx h l got built =
    let (t, put_in, found, one) = register-found msg name names table tables lay indx h l in
    (t, rw (got, built, put_in) refl, found, one)
