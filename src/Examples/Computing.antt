-- ===== src/Examples/Computing.antt =====
-- src/imlgen/decode.cxx at instruction words of test/base.s, and what the instructions compute.
use koshka.Base.{false, ℕ, ◌*◌, ◌==◌, not, ◌≡◌, refl, ap, sym, ◌∙◌, arith}
use koshka.Bitmanip.Region.{field}
use koshka.ArmEncoding.Pages.{L1Page, l1_index, DataImmPage, DataRegPage}
use koshka.ArmEncoding.Spec.{page_of}
use koshka.Iml.Yields.{Yields}
use koshka.Decode.{decode}
use koshka.Decode.Meaning.{bit, logical_shift_meaning, addsub_shift_meaning}
use koshka.Iml.Values.{value}
use koshka.Base.{some, ◌-◌, ◌^◌}
use koshka.Decode.Words.{top_page, imm_page, reg_page, IsAccepted}
use koshka.Decode.Manual.{logical_shift_bit, shifted_register_bit}
use koshka.Decode.Manual.{addsub_immediate}
use koshka.Base.Digit.{digit}
use koshka.Decode.Computes.{Computes, LogicalImmComputes, decode-logical_shift, decode-logical_imm}
use koshka.Decode.Adds.{Adds, decode-addsub_shift, decode-addsub_imm}
use koshka.Examples.Decoding.{add_imm, and_imm, bic, add_shifted, fresh, fresh-Ready}
use koshka.Imlgen.Computed.{Computed}
use koshka.Examples.Generation.{bic-IsAccepted, add_imm-IsAccepted, and_imm-IsAccepted}

-- Register `n` holds three times its number.
abbrev registers : ℕ → ℕ
registers n = 3 * n

bic_pages : (top_page bic ≡ L1Page.data_reg) × (reg_page bic ≡ DataRegPage.logical_shift)
unfolding page_of
bic_pages = (refl, refl)

and_imm_pages : (top_page and_imm ≡ L1Page.data_imm) × (imm_page and_imm ≡ DataImmPage.logical_imm)
unfolding page_of
and_imm_pages = (refl, refl)

add_shifted_pages :
    (top_page add_shifted ≡ L1Page.data_reg) × (reg_page add_shifted ≡ DataRegPage.addsub_shift)
unfolding page_of
add_shifted_pages = (refl, refl)

add_imm_pages : (top_page add_imm ≡ L1Page.data_imm) × (imm_page add_imm ≡ DataImmPage.addsub_imm)
unfolding page_of
add_imm_pages = (refl, refl)

add_shifted-IsAccepted : IsAccepted add_shifted
add_shifted-IsAccepted = record {
  nonzero = λ e. absurd (omega (arith, e));
  mask = λ g p. absurd (omega (arith, ap l1_index (sym add_shifted_pages.0 ∙ g)));
  logical = λ g p. refl;
  addsub = λ g p. refl;
}

decode-logical_shift_example :
    Yields fresh 144
      (Computes bic registers (field bic 29 30 == 3) (λ j. logical_shift_bit bic registers j) 0)
      (decode bic fresh)
decode-logical_shift_example =
    decode-logical_shift bic registers fresh bic-IsAccepted bic_pages.0 bic_pages.1
      (fresh-Ready 144 (omega arith))

decode-logical_imm_example :
    Yields fresh 144 (LogicalImmComputes and_imm registers 0) (decode and_imm fresh)
decode-logical_imm_example =
    decode-logical_imm and_imm registers fresh and_imm-IsAccepted and_imm_pages.0 and_imm_pages.1
      (fresh-Ready 144 (omega arith))

decode-addsub_shift_example :
    Yields fresh 144
      (Adds add_shifted registers
        (not (bit add_shifted 30))
        (bit add_shifted 29)
        (shifted_register_bit add_shifted registers)
        0)
      (decode add_shifted fresh)
decode-addsub_shift_example =
    decode-addsub_shift add_shifted registers fresh add_shifted-IsAccepted add_shifted_pages.0
      add_shifted_pages.1 (fresh-Ready 144 (omega arith))

decode-addsub_imm_example :
    Yields fresh 144
      (Adds add_imm registers (not (bit add_imm 30)) false (digit (addsub_immediate add_imm)) 0)
      (decode add_imm fresh)
decode-addsub_imm_example =
    decode-addsub_imm add_imm registers fresh add_imm-IsAccepted add_imm_pages.0 add_imm_pages.1
      (fresh-Ready 144 (omega arith))

-- 6 & ~(9 << 4), and 6 - (9 << 4) where the word says 6 + (9 << 4).
values :
    (value 64 registers (logical_shift_meaning bic).tree ≡ some 6)
    × (value 64 registers (addsub_shift_meaning add_shifted).tree ≡ some (2 ^ 64 - 138))
values = (refl, refl)
