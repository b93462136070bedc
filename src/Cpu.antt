-- ===== src/Cpu.antt =====
-- The CPU state of src/armv8.h, which the code declares and does not use yet.
use koshka.Base.{ℕ}

-- A SIMD register of 128 bits, as two u64.
abbrev pub Wide : Type 0
Wide = ℕ × ℕ

-- `cpu_ctx`
pub record CpuCtx : Type 0 where
  pub sp : ℕ
  pub pc : ℕ
  pub r0 : ℕ
  pub r1 : ℕ
  pub r2 : ℕ
  pub r3 : ℕ
  pub r4 : ℕ
  pub r5 : ℕ
  pub r6 : ℕ
  pub r7 : ℕ
  pub r8 : ℕ
  pub r9 : ℕ
  pub r10 : ℕ
  pub r11 : ℕ
  pub r12 : ℕ
  pub r13 : ℕ
  pub r14 : ℕ
  pub r15 : ℕ
  pub r16 : ℕ
  pub r17 : ℕ
  pub r18 : ℕ
  pub r19 : ℕ
  pub r20 : ℕ
  pub r21 : ℕ
  pub r22 : ℕ
  pub r23 : ℕ
  pub r24 : ℕ
  pub r25 : ℕ
  pub r26 : ℕ
  pub r27 : ℕ
  pub r28 : ℕ
  pub r29 : ℕ
  pub r30 : ℕ
  pub v0 : Wide
  pub v1 : Wide
  pub v2 : Wide
  pub v3 : Wide
  pub v4 : Wide
  pub v5 : Wide
  pub v6 : Wide
  pub v7 : Wide
  pub v8 : Wide
  pub v9 : Wide
  pub v10 : Wide
  pub v11 : Wide
  pub v12 : Wide
  pub v13 : Wide
  pub v14 : Wide
  pub v15 : Wide
  pub v16 : Wide
  pub v17 : Wide
  pub v18 : Wide
  pub v19 : Wide
  pub v20 : Wide
  pub v21 : Wide
  pub v22 : Wide
  pub v23 : Wide
  pub v24 : Wide
  pub v25 : Wide
  pub v26 : Wide
  pub v27 : Wide
  pub v28 : Wide
  pub v29 : Wide
  pub v30 : Wide
  pub fpcr : Wide
  pub fpsr : Wide
