-- ===== src/FileHeader/Words.antt =====
-- A disk sector as 32 words, least significant byte first: the host is an i386 (code/Makefile.dep).
use nachos_lab.Base.{
  ℕ, zero, suc, ◌+◌, ◌*◌, ◌/◌, ◌%◌, ◌^◌, ◌<◌, ◌≡◌, refl, ap, List, [], ◌∷◌, arith, get_elem?,
  length, All, some, get_or,
}

abbrev pub byte : ℕ → ℕ → ℕ
byte w k = w / 256 ^ k % 256

unfoldable pub bytes_of_words : List ℕ → List ℕ
bytes_of_words [] = []
bytes_of_words (w ∷ ws) = byte w 0 ∷ byte w 1 ∷ byte w 2 ∷ byte w 3 ∷ bytes_of_words ws

unfoldable pub words_of_bytes : List ℕ → List ℕ
words_of_bytes (a ∷ b ∷ c ∷ d ∷ bytes) =
    (a + 256 * (b + 256 * (c + 256 * d))) ∷ words_of_bytes bytes
words_of_bytes _ = []

pub words-bytes : (ws : List ℕ) → All (λ w. w < 2 ^ 32) ws → words_of_bytes (bytes_of_words ws) ≡ ws
unfolding bytes_of_words words_of_bytes
words-bytes [] h = refl
words-bytes (w ∷ ws) h = ground (arith, words-bytes ws h.1)

pub length-bytes_of_words : (ws : List ℕ) → length (bytes_of_words ws) ≡ 4 * length ws
unfolding bytes_of_words
length-bytes_of_words [] = refl
length-bytes_of_words (w ∷ ws) = omega (arith, length-bytes_of_words ws)

-- The byte at four times an index is the lowest of that word.
pub get_elem?-bytes_of_words :
    (ws : List ℕ) (i : ℕ)
    → i < length ws
    → get_elem? (bytes_of_words ws) (i * 4) ≡ some (get_or ws i 0 % 256)
unfolding bytes_of_words
get_elem?-bytes_of_words [] i h = absurd (omega arith)
get_elem?-bytes_of_words (w ∷ ws) zero h = ap some (omega arith)
get_elem?-bytes_of_words (w ∷ ws) (suc i) h =
    let e : suc i * 4 ≡ suc (suc (suc (suc (i * 4)))) = omega arith in
    rw e (get_elem?-bytes_of_words ws i (omega arith))
