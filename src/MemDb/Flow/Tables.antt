-- ===== src/MemDb/Flow/Tables.antt =====
-- How a table is found by its name.
use lab.Prelude.{
  ℕ, zero, suc, ◌%◌, ◌^◌, get_elem?, ◌≤◌, ◌<◌, ◌≡◌, refl, List, [], ◌∷◌, none, length, take, arith,
}
use lab.MemDb.Outcome.{ok, raised, undefined, at}
use lab.MemDb.Flow.{NetworkMsg, TblNm2DataBuff, find_tb_idx, find_layout}

get_elem?-none {ℓ} : {A : Type ℓ} (xs : List A) (i : ℕ) → length xs ≤ i → get_elem? xs i ≡ none
get_elem?-none [] i h = refl
get_elem?-none (x ∷ xs) zero h = absurd (omega arith)
get_elem?-none (x ∷ xs) (suc i) h = get_elem?-none xs i (omega arith)

-- Where none of the names that are compared is that of the message, and the array of tables has
-- less than 65536 elements, the missing table is not noticed: the index -1 becomes 65535, which is
-- not equal to -1 once more, and an element out of the range of the array is read.
pub find_layout_unknown {ℓ} :
    {A : Type ℓ} (t : TblNm2DataBuff A) (msg : NetworkMsg)
    → length t.data_at < 2 ^ 16
    → find_tb_idx t (take (msg.lay_nm_sz % 2 ^ 16) msg.buff) ≡ ok none
    → find_layout t msg ≡ raised undefined
unfolding find_layout
find_layout_unknown t msg small missing =
    let beyond = get_elem?-none t.data_at 65535 (omega arith) in
    let out : at t.data_at 65535 ≡ raised undefined = rw (beyond, at) in rw (missing, out)
