-- ===== src/Fws/Client/Callbacks/Hash.antt =====
-- What `HashArr` notices: a message and an echo that differ in one byte.
use Prim.Native.Nat.{bit_xor}
use ws_benchmark.Prelude.{
  ℕ, ◌%◌, ◌^◌, ◌<◌, ◌≡◌, ◌≢◌, refl, sym, ap, ◌∙◌, List, [], ◌∷◌, ◌++◌, arith, ◌==◌, ==_iff,
  bit_xor-left, bit_xor-right, bit_xor-bound, if_true, if_false, Bool-cases, inl, inr,
}
use ws_benchmark.Fws.{aborts, contents}
use ws_benchmark.Fws.Client.{Config, Env, Frame, ClientLib, hash_from, hash_arr}
use ws_benchmark.Fws.Client.Callbacks.{check_hash}

-- A rotation of 64-bit words by five places stays in them and loses nothing.
pub record IsRotation (rotate_r : ℕ → ℕ → ℕ) : Type 0 where
  pub stays : (x : ℕ) → x < 2 ^ 64 → rotate_r x 5 < 2 ^ 64
  pub keeps : (x y : ℕ) → x < 2 ^ 64 → y < 2 ^ 64 → rotate_r x 5 ≡ rotate_r y 5 → x ≡ y

abbrev pub AreBytes : List ℕ → Type 0
AreBytes [] = Unit {0}
AreBytes (b ∷ bytes) = (b < 256) × AreBytes bytes

module _ (rotate_r : ℕ → ℕ → ℕ) (rotation : IsRotation rotate_r) where
  mixed-bound : (h b : ℕ) → h < 2 ^ 64 → b < 256 → bit_xor h b < 2 ^ 64
  mixed-bound h b small byte = bit_xor-bound 64 h b small (omega arith)

  hash_from-bound :
      (h : ℕ) (bytes : List ℕ) → h < 2 ^ 64 → AreBytes bytes → hash_from rotate_r h bytes < 2 ^ 64
  unfolding hash_from
  hash_from-bound h [] small all = small
  hash_from-bound h (b ∷ bytes) small all =
      hash_from-bound (rotate_r (bit_xor h b) 5) bytes
        (rotation.stays (bit_xor h b) (mixed-bound h b small all.0)) all.1

  -- Two states that differ stay different, whatever bytes follow.
  hash_from-keeps :
      (h k : ℕ) (bytes : List ℕ)
      → h < 2 ^ 64
      → k < 2 ^ 64
      → AreBytes bytes
      → hash_from rotate_r h bytes ≡ hash_from rotate_r k bytes
      → h ≡ k
  unfolding hash_from
  hash_from-keeps h k [] small small' all e = e
  hash_from-keeps h k (b ∷ bytes) small small' all e = bit_xor-right h k b (
      rotation.keeps (bit_xor h b) (bit_xor k b) (mixed-bound h b small all.0)
        (mixed-bound k b small' all.0)
        (hash_from-keeps (rotate_r (bit_xor h b) 5) (rotate_r (bit_xor k b) 5) bytes
          (rotation.stays (bit_xor h b) (mixed-bound h b small all.0))
          (rotation.stays (bit_xor k b) (mixed-bound k b small' all.0)) all.1 e))

  hash_from-append :
      (h : ℕ) (xs ys : List ℕ)
      → hash_from rotate_r h (xs ++ ys) ≡ hash_from rotate_r (hash_from rotate_r h xs) ys
  unfolding hash_from
  hash_from-append h [] ys = refl
  hash_from-append h (x ∷ xs) ys = hash_from-append (rotate_r (bit_xor h x) 5) xs ys

  hash_from-first :
      (h b c : ℕ) (bytes : List ℕ)
      → h < 2 ^ 64
      → b < 256
      → c < 256
      → AreBytes bytes
      → hash_from rotate_r h (b ∷ bytes) ≡ hash_from rotate_r h (c ∷ bytes)
      → b ≡ c
  unfolding hash_from
  hash_from-first h b c bytes small byte byte' all e = bit_xor-left h b c (
      rotation.keeps (bit_xor h b) (bit_xor h c) (mixed-bound h b small byte)
        (mixed-bound h c small byte')
        (hash_from-keeps (rotate_r (bit_xor h b) 5) (rotate_r (bit_xor h c) 5) bytes
          (rotation.stays (bit_xor h b) (mixed-bound h b small byte))
          (rotation.stays (bit_xor h c) (mixed-bound h c small byte')) all e))

  hash_arr-differs :
      (before after : List ℕ) (b c : ℕ)
      → AreBytes before
      → AreBytes after
      → b < 256
      → c < 256
      → b ≢ c
      → hash_arr rotate_r (before ++ (b ∷ after)) ≢ hash_arr rotate_r (before ++ (c ∷ after))
  unfolding hash_arr
  hash_arr-differs before after b c all all' byte byte' apart e = apart (
      hash_from-first (hash_from rotate_r 0 before) b c after
        (hash_from-bound 0 before (omega arith) all) byte byte' all'
        (sym (hash_from-append 0 before (b ∷ after)) ∙ e ∙ hash_from-append 0 before (c ∷ after)))

-- An echo that differs from the message in one byte, wherever it is, stops the client at the check
-- that is made after each 0x4000 echoes, if `RotateR` loses nothing.
pub check_hash-notices :
    (lib : ClientLib) (config : Config) (env : Env) (f : Frame) (before after : List ℕ) (b c : ℕ)
    → IsRotation lib.rotate_r
    → AreBytes before
    → AreBytes after
    → b < 256
    → c < 256
    → b ≢ c
    → f.ctx.data_hash ≡ hash_arr lib.rotate_r (before ++ (b ∷ after))
    → contents f.client_ctx.temp_buf ≡ before ++ (c ∷ after)
    → f.ctx.loop_cnt % 0x4000 ≡ 0
    → check_hash lib config env f ≡ aborts
unfolding check_hash
check_hash-notices lib config env f before after b c rotation all all' byte byte' apart hash echo
      at =
    if_true _ _ ((==_iff (f.ctx.loop_cnt % 0x4000) 0).1 at)
    ∙ elim (Bool-cases
        (hash_arr lib.rotate_r (contents f.client_ctx.temp_buf) == f.ctx.data_hash)) [
          | inl same ↦ absurd (
              hash_arr-differs lib.rotate_r rotation before after b c all all' byte byte' apart
                (sym hash ∙ sym ((==_iff _ _).0 same) ∙ ap (hash_arr lib.rotate_r) echo))
          | inr other ↦ if_false _ _ other
        ]
