-- ===== src/KvCache/Encode.antt =====
-- How `write` stores a row of floats: as it is, in half precision, or as bytes with a scale.
use mem_vanta.Prelude.{ℕ, if◌then◌else◌, Result, ok, ◌>>=◌}
use mem_vanta.Prelude.Float.{Single, amax}
use mem_vanta.Prelude.Int.{ℤ, pos, negsuc, ltb_ℤ}
use mem_vanta.CheckedMath.{checked_mul_size}
use mem_vanta.Half.{fp32_to_fp16}
use mem_vanta.KvCache.{KvCacheType, f32, f16, q8, KvError, store, lift, Page}

module _ (S : Single) where
  open S use {F, nought, one, div, abs, lt, of_int, lround, to_bits}

  unfoldable pub scale : ℕ → (ℕ → F) → F
  unfolding amax
  scale n k = if lt nought (amax S n k) then div (amax S n k) (of_int (pos 127)) else one

  -- `std::clamp` to the range from -127 to 127
  abbrev pub clamp : ℤ → ℤ
  clamp z = if ltb_ℤ z (negsuc 126) then negsuc 126 else if ltb_ℤ (pos 127) z then pos 127 else z

  abbrev pub quantized : (ℕ → F) → F → ℕ → ℤ
  quantized k s d = clamp (lround (div (k d) s))

  abbrev pub half : (ℕ → F) → ℕ → ℕ
  half k d = fp32_to_fp16 (to_bits (k d))

  -- A row of keys and one of values are written to a page.
  unfoldable pub write_page :
      ℕ → KvCacheType → (ℕ → F) → (ℕ → F) → ℕ → ℕ → Page S → Result KvError (Page S)
  unfolding store scale
  write_page dim f32 k v off i pg = do
    _ ← lift (checked_mul_size dim 4)
    k32 ← store off dim k pg.k32
    v32 ← store off dim v pg.v32
    ok (record {
      k32 = k32;
      v32 = v32;
      k16 = pg.k16;
      v16 = pg.v16;
      k8 = pg.k8;
      v8 = pg.v8;
      ks = pg.ks;
      vs = pg.vs;
    })
  write_page dim f16 k v off i pg = do
    k16 ← store off dim (half k) pg.k16
    v16 ← store off dim (half v) pg.v16
    ok (record {
      k32 = pg.k32;
      v32 = pg.v32;
      k16 = k16;
      v16 = v16;
      k8 = pg.k8;
      v8 = pg.v8;
      ks = pg.ks;
      vs = pg.vs;
    })
  write_page dim q8 k v off i pg = do
    ks ← store i 1 (λ d. scale dim k) pg.ks
    vs ← store i 1 (λ d. scale dim v) pg.vs
    k8 ← store off dim (quantized k (scale dim k)) pg.k8
    v8 ← store off dim (quantized v (scale dim v)) pg.v8
    ok (record {
      k32 = pg.k32;
      v32 = pg.v32;
      k16 = pg.k16;
      v16 = pg.v16;
      k8 = k8;
      v8 = v8;
      ks = ks;
      vs = vs;
    })
