-- ===== src/Examples/Generation.antt =====
-- src/imlgen/iml.cxx on the code `add x1, x2, #42` and `bic x1, x2, x3, lsl 4` of test/base.s.
use koshka.Base.{true, ℕ, ◌≡◌, refl, ap, sym, ◌∙◌, arith, [], ◌∷◌, List}
use koshka.Base.{false}
use koshka.Base.{◌++◌}
use koshka.Base.Result.{ok, err, bounds}
use koshka.Base.Result.{Faults}
use koshka.Imlgen.Torn.{imlgen_torn}
use koshka.Imlgen.Starved.{imlgen_no_memory}
use koshka.Iml.Types.{Operand, BranchHint}
use koshka.Decode.Branches.{branch_instruction}
use koshka.Decode.Jumps.{decode-direct_branch}
use koshka.ArmEncoding.Pages.{L1Page, l1_index, DataImmPage, data_imm_index}
use koshka.Pool.{pool_read}
use koshka.Base.Slice.{slice}
use koshka.Decode.{decode}
use koshka.Decode.Total.{decode-Means}
use koshka.Decode.Words.{top_page, imm_page, IsAccepted, WordMeans}
use koshka.ArmEncoding.Spec.{page_of}
use koshka.Iml.Yields.{Yields}
use koshka.Base.{◌↔◌}
use koshka.Pool.{Store}
use koshka.Iml.Objects.{Cell}
use koshka.Iml.Types.{Instruction}
use koshka.Decode.Faults.{decode-returns_iff}
use koshka.Imlgen.Refused.{Fetches, imlgen-returns_iff}
use koshka.Imlgen.{Program, imlgen, imlgen_recurse, start, arm_instr}
use koshka.Imlgen.Depth.{imlgen_recurse-depth}
use koshka.Base.{◌≤◌}
use koshka.Imlgen.Linked.{Listing}
use koshka.Imlgen.Generated.{Generated, code_pool, imlgen-Generated}
use koshka.Examples.Decoding.{add_imm, and_imm, bic, fresh, fresh-Ready}

abbrev pub code : List ℕ
code = 0x41 ∷ 0xA8 ∷ 0x00 ∷ 0x91 ∷ 0x41 ∷ 0x10 ∷ 0x23 ∷ 0x8A ∷ []

add_imm_pages : (top_page add_imm ≡ L1Page.data_imm) × (imm_page add_imm ≡ DataImmPage.addsub_imm)
unfolding page_of
add_imm_pages = (refl, refl)

bic_group : top_page bic ≡ L1Page.data_reg
unfolding page_of
bic_group = refl

pub add_imm-IsAccepted : IsAccepted add_imm
add_imm-IsAccepted = record {
  nonzero = λ e. absurd (omega (arith, e));
  mask = λ g p. absurd (omega (arith, ap data_imm_index (sym add_imm_pages.1 ∙ p)));
  logical = λ g p. absurd (omega (arith, ap l1_index (sym add_imm_pages.0 ∙ g)));
  addsub = λ g p. absurd (omega (arith, ap l1_index (sym add_imm_pages.0 ∙ g)));
}

pub bic-IsAccepted : IsAccepted bic
bic-IsAccepted = record {
  nonzero = λ e. absurd (omega (arith, e));
  mask = λ g p. absurd (omega (arith, ap l1_index (sym bic_group ∙ g)));
  logical = λ g p. refl;
  addsub = λ g p. refl;
}

pub code-Listing : Listing (code_pool code) 0 (add_imm ∷ bic ∷ [])
unfolding arm_instr pool_read slice
code-Listing =
    Listing.next_word refl add_imm-IsAccepted
      (Listing.next_word refl bic-IsAccepted Listing.end_of_code)

and_imm_group : top_page and_imm ≡ L1Page.data_imm
unfolding page_of
and_imm_group = refl

-- N is 1, and the fields are 62 and 63, so the element has 64 bits.
pub and_imm-IsAccepted : IsAccepted and_imm
and_imm-IsAccepted = record {
  nonzero = λ e. absurd (omega (arith, e));
  mask = λ g p. record {
    len = 6;
    has_length = record {
      positive = omega arith;
      lower = omega arith;
      upper = omega arith;
      not_ones = λ e. absurd (omega (arith, e));
    };
    wide = refl;
  };
  logical = λ g p. absurd (omega (arith, ap l1_index (sym and_imm_group ∙ g)));
  addsub = λ g p. absurd (omega (arith, ap l1_index (sym and_imm_group ∙ g)));
}

decode-Means_example : Yields fresh 144 (WordMeans and_imm 0) (decode and_imm fresh)
decode-Means_example = decode-Means and_imm fresh and_imm-IsAccepted (fresh-Ready 144 (omega arith))

imlgen-Generated_example : Generated (add_imm ∷ bic ∷ []) (imlgen [] [] code 8)
imlgen-Generated_example =
    imlgen-Generated [] [] code add_imm (bic ∷ []) refl refl refl (omega arith) code-Listing

-- Two words want calls two deep.
imlgen_recurse-depth_example :
    ((r : ℕ × Program) × (imlgen_recurse 2 (start [] [] code 8) 0 ≡ ok r)) ↔ (2 ≤ 2)
imlgen_recurse-depth_example =
    imlgen_recurse-depth 2 [] [] code add_imm (bic ∷ []) refl refl refl (omega arith) code-Listing

-- The code with one byte more.
torn_code-Listing : Listing (code_pool (code ++ 0 ∷ [])) 0 (add_imm ∷ bic ∷ [])
unfolding arm_instr pool_read slice
torn_code-Listing =
    Listing.next_word refl add_imm-IsAccepted
      (Listing.next_word refl bic-IsAccepted Listing.end_of_code)

imlgen_torn_example : imlgen [] [] (code ++ 0 ∷ []) 9 ≡ err bounds
imlgen_torn_example =
    imlgen_torn [] [] (code ++ 0 ∷ []) (add_imm ∷ bic ∷ []) refl (omega arith) (omega arith)
      (omega arith) torn_code-Listing

pub code-Fetches : Fetches (code_pool code) 0 (add_imm ∷ bic ∷ [])
unfolding arm_instr pool_read slice
code-Fetches = Fetches.next_word refl (Fetches.next_word refl Fetches.end_of_code)

imlgen-returns_iff_example :
    ((prog : Program) × (imlgen [] [] code 8 ≡ ok prog))
    ↔ Listing (code_pool code) 0 (add_imm ∷ bic ∷ [])
imlgen-returns_iff_example =
    imlgen-returns_iff [] [] code add_imm (bic ∷ []) refl refl refl (omega arith) code-Fetches

decode-returns_iff_example :
    ((r : Instruction × Store Cell) × (decode bic fresh ≡ ok r)) ↔ IsAccepted bic
decode-returns_iff_example = decode-returns_iff bic fresh (fresh-Ready 144 (omega arith))

imlgen_no_memory_example : Faults (imlgen (false ∷ []) [] code 8)
imlgen_no_memory_example = imlgen_no_memory [] [] code 8 (omega arith) (omega arith)

-- bl .-4
abbrev call_back : ℕ
call_back = 0x97FFFFFF

-- The offset -4 comes out as 0x3FFFFFF.
decode-direct_branch_example :
    decode call_back fresh
    ≡ ok (
      branch_instruction (record {
        conditional = false;
        link = true;
        dest = Operand.imm 0x3FFFFFF;
        hint = BranchHint.call;
      }),
      fresh,
    )
decode-direct_branch_example = decode-direct_branch call_back fresh refl
