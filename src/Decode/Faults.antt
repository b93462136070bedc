-- ===== src/Decode/Faults.antt =====
-- The words that `decode` refuses are those that encode no instruction.
use koshka.Base.{ℕ, ◌/◌, ◌%◌, ◌^◌, ◌==◌, ◌||◌, ◌≡◌, ◌⊎◌, inl, inr, refl, ap, sym, arith}
use koshka.Base.{true, false, Bool-cases, ==_false}
use koshka.Base.{◌↔◌, ◌∙◌}
use koshka.Base.Result.{Faults, ok≢err, Fault, ok, err, assertion}
use koshka.Bitmanip.Region.{field, get_single_bit_lem}
use koshka.ArmAsl.{decode_bit_masks}
use koshka.ArmAsl.Faults.{decode_bit_masks-HasLength}
use koshka.ArmEncoding.Pages.{L1Page, DataImmPage, DataRegPage}
use koshka.ArmEncoding.Pages.{l1_index, data_imm_index, data_reg_index}
use koshka.ArmEncoding.Groups.{instr_get_group_lem, data_imm_get_group_lem}
use koshka.ArmEncoding.Groups.{data_reg_get_group_lem}
use koshka.Pool.{Store}
use koshka.Iml.Objects.{Cell}
use koshka.Decode.{decode, decode_group}
use koshka.Decode.Immediates.{decode_data_imm, decode_data_imm_page, decode_logical_imm}
use koshka.Decode.Registers.{decode_data_reg, decode_data_reg_page}
use koshka.Decode.Registers.{decode_data_reg_logical_shift, decode_data_reg_addsub_shift}
use koshka.Decode.Meaning.{bit}
use koshka.Decode.Fields.{byte_field_lem, u8_bit, bitwise_table, shift_table, shift_op-ne}
use koshka.Iml.Types.{Instruction}
use koshka.Iml.Yields.{Ready, Yields}
use koshka.Decode.Total.{decode-Means}
use koshka.Decode.Words.{WordMeans}
use koshka.Decode.Words.{top_page, imm_page, reg_page, HasMask, ShiftFits, IsAccepted}

narrow_mask :
    (v : ℕ) (st : Store Cell)
    → (bit v 31 || v / 2 ^ 22 % 2 == 0) ≡ false
    → decode_logical_imm v st ≡ err assertion
unfolding decode_logical_imm
narrow_mask v st narrow = rw (u8_bit v 22, get_single_bit_lem v 31, narrow) refl

logical_imm-HasMask : (v : ℕ) (st : Store Cell) → HasMask v ⊎ Faults (decode_logical_imm v st)
unfolding decode_logical_imm
logical_imm-HasMask v st = elim (Bool-cases (bit v 31 || v / 2 ^ 22 % 2 == 0)) [
  | inr narrow ↦ inr (assertion, narrow_mask v st narrow)
  | inl wide ↦
      elim (decode_bit_masks-HasLength (bit v 22) (field v 10 15) (field v 16 21) (omega arith)
        (omega arith)) [
          | inl found ↦ inl (record { len = found.0; has_length = found.1; wide = wide })
          | inr failed ↦ inr (failed.0, no_mask failed.0 wide failed.1)
        ]
]
  where
    no_mask :
        (e : Fault)
        → (bit v 31 || v / 2 ^ 22 % 2 == 0) ≡ true
        → decode_bit_masks (bit v 22) (field v 10 15) (field v 16 21) ≡ err e
        → decode_logical_imm v st ≡ err e
    no_mask e wide failed =
        rw
          (
            byte_field_lem v 16 21 (omega arith) (omega arith) (omega arith),
            byte_field_lem v 10 15 (omega arith) (omega arith) (omega arith),
            u8_bit v 22,
            get_single_bit_lem v 31,
            wide,
            failed,
          )
          refl

logical_shift-ShiftFits :
    (v : ℕ) (st : Store Cell) → ShiftFits v ⊎ Faults (decode_data_reg_logical_shift v st)
unfolding decode_data_reg_logical_shift
logical_shift-ShiftFits v st = elim (Bool-cases (bit v 31 || field v 10 15 / 2 ^ 5 % 2 == 0)) [
  | inl fits ↦ inl fits
  | inr no_ ↦ inr (
    assertion,
    rw
        (
          byte_field_lem v 29 30 (omega arith) (omega arith) (omega arith),
          byte_field_lem v 22 23 (omega arith) (omega arith) (omega arith),
          byte_field_lem v 10 15 (omega arith) (omega arith) (omega arith),
          get_single_bit_lem v 31,
          get_single_bit_lem (field v 10 15) 5,
          bitwise_table (field v 29 30) (omega arith),
          shift_table (field v 22 23) (omega arith),
          no_,
        )
        refl,
  )
]

addsub_shift-ShiftFits :
    (v : ℕ) (st : Store Cell) → ShiftFits v ⊎ Faults (decode_data_reg_addsub_shift v st)
unfolding decode_data_reg_addsub_shift
addsub_shift-ShiftFits v st = elim (Bool-cases (bit v 31 || field v 10 15 / 2 ^ 5 % 2 == 0)) [
  | inl fits ↦ inl fits
  | inr no_ ↦ inr (
    assertion,
    rw
        (
          byte_field_lem v 22 23 (omega arith) (omega arith) (omega arith),
          byte_field_lem v 10 15 (omega arith) (omega arith) (omega arith),
          get_single_bit_lem v 31,
          get_single_bit_lem (field v 10 15) 5,
          shift_table (field v 22 23) (omega arith),
          shift_op-ne (field v 22 23),
          no_,
        )
        refl,
  )
]

imm_page-HasMask :
    (page : DataImmPage) (v : ℕ) (st : Store Cell)
    → (page ≡ DataImmPage.logical_imm → HasMask v) ⊎ Faults (decode_data_imm_page page v st)
unfolding decode_data_imm_page
imm_page-HasMask DataImmPage.logical_imm v st = elim (logical_imm-HasMask v st) [
  | inl m ↦ inl (λ e. m)
  | inr f ↦ inr f
]
imm_page-HasMask other v st = inl (λ e. absurd (omega (arith, ap data_imm_index e)))

-- The conditions on the two forms of the operations on shifted registers.
abbrev RegFits : DataRegPage → ℕ → Type 0
RegFits page v =
    (page ≡ DataRegPage.logical_shift → ShiftFits v)
    × (page ≡ DataRegPage.addsub_shift → ShiftFits v)

reg_page-RegFits :
    (page : DataRegPage) (v : ℕ) (st : Store Cell)
    → RegFits page v ⊎ Faults (decode_data_reg_page page v st)
unfolding decode_data_reg_page
reg_page-RegFits DataRegPage.logical_shift v st = elim (logical_shift-ShiftFits v st) [
  | inl fits ↦ inl (λ e. fits, λ e. fits)
  | inr f ↦ inr f
]
reg_page-RegFits DataRegPage.addsub_shift v st = elim (addsub_shift-ShiftFits v st) [
  | inl fits ↦ inl (λ e. fits, λ e. fits)
  | inr f ↦ inr f
]
reg_page-RegFits other v st = inl (
  λ e. absurd (omega (arith, ap data_reg_index e)),
  λ e. absurd (omega (arith, ap data_reg_index e)),
)

-- What a word of the group must fulfil.
abbrev GroupFits : L1Page → ℕ → Type 0
GroupFits group v =
    (group ≡ L1Page.data_imm → imm_page v ≡ DataImmPage.logical_imm → HasMask v)
    × (group ≡ L1Page.data_reg → RegFits (reg_page v) v)

group-GroupFits :
    (group : L1Page) (v : ℕ) (st : Store Cell)
    → GroupFits group v ⊎ Faults (decode_group group v st)
unfolding decode_group decode_data_imm decode_data_reg
group-GroupFits L1Page.data_imm v st =
    rw (data_imm_get_group_lem v) (elim (imm_page-HasMask (imm_page v) v st) [
      | inl m ↦ inl (λ e. m, λ e. absurd (omega (arith, ap l1_index e)))
      | inr f ↦ inr f
    ])
group-GroupFits L1Page.data_reg v st =
    rw (data_reg_get_group_lem v) (elim (reg_page-RegFits (reg_page v) v st) [
      | inl fits ↦ inl (λ e. absurd (omega (arith, ap l1_index e)), λ e. fits)
      | inr f ↦ inr f
    ])
group-GroupFits other v st =
    inl (λ e. absurd (omega (arith, ap l1_index e)), λ e. absurd (omega (arith, ap l1_index e)))

top-GroupFits :
    (v : ℕ) (st : Store Cell) → (v == 0) ≡ false → GroupFits (top_page v) v ⊎ Faults (decode v st)
unfolding decode
top-GroupFits v st some_ = rw (some_, instr_get_group_lem v) (group-GroupFits (top_page v) v st)

zero-Faults : (v : ℕ) (st : Store Cell) → (v == 0) ≡ true → Faults (decode v st)
unfolding decode
zero-Faults v st zero_ = (assertion, rw zero_ refl)

-- From whatever pool, `decode` faults on a word that it does not accept: 0, a bitwise operation
-- with an immediate whose fields encode no bitmask, and an operation on shifted registers whose
-- shift does not fit them.
pub decode-IsAccepted : (instr : ℕ) (st : Store Cell) → IsAccepted instr ⊎ Faults (decode instr st)
decode-IsAccepted instr st = elim (Bool-cases (instr == 0)) [
  | inl zero_ ↦ inr (zero-Faults instr st zero_)
  | inr some_ ↦ elim (top-GroupFits instr st some_) [
    | inr f ↦ inr f
    | inl fits ↦ inl (record {
      nonzero = ==_false some_;
      mask = fits.0;
      logical = λ g p. (fits.1 g).0 p;
      addsub = λ g p. (fits.1 g).1 p;
    })
  ]
]

-- From a valid pool with a buffer of at most 2^31 bytes, whose position is at most 2^30 after 144
-- more bytes, and with every calloc granted, decode returns if and only if the word is one that
-- decode accepts, that is other than 0, with fields that encode a bitmask if it is a bitwise
-- operation with an immediate, and with a shift of at most 31 if it is an operation on shifted
-- 32-bit registers.
pub decode-returns_iff :
    (instr : ℕ) (st : Store Cell)
    → Ready st 144
    → ((r : Instruction × Store Cell) × (decode instr st ≡ ok r)) ↔ IsAccepted instr
decode-returns_iff instr st ready = (
  λ run. elim (decode-IsAccepted instr st) [
    | inl encoded ↦ encoded
    | inr f ↦ absurd (ok≢err (sym run.1 ∙ f.1))
  ],
  λ encoded.
      let y : Yields st 144 (WordMeans instr st.pool.pos) (decode instr st) =
        decode-Means instr st encoded ready in
      ((y.result, y.after), y.returns),
)
