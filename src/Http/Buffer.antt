-- ===== src/Http/Buffer.antt =====
-- The buffer of the network library (`muduo::net::Buffer`), which is not part of the repository:
-- the operations that the code calls, and what it relies on.
use workplace.Common.{Option, [], drop, length, some, ℕ, ◌++◌, ◌+◌, ◌∷◌, ◌≡◌, ◌≤◌}
use workplace.Common.Text.{Lacks, Text}

abbrev pub crlf : Text
crlf = 13 ∷ 10 ∷ []

-- `bytes` is what can be read: `peek()` and `readableBytes()`. `find_crlf` gives the distance from
-- `peek()` to the first "\r\n", and `retrieve` moves the read position.
pub record Buffer : Type 1 where
  pub Buf : Type 0
  pub bytes : Buf → Text
  pub retrieve : ℕ → Buf → Buf
  pub find_crlf : Buf → Option ℕ
  pub append : Buf → Text → Buf

-- Documented behaviour: what is found lies inside the readable bytes and is followed by "\r\n";
-- a line without "\r" that is followed by "\r\n" is found; reading on drops bytes from the front.
pub record BufferLaws (B : Buffer) : Type 0 where
  pub found : (b : B.Buf) (n : ℕ) → B.find_crlf b ≡ some n → n + 2 ≤ length (B.bytes b)
  pub finds :
      (b : B.Buf) (line rest : Text)
      → Lacks 13 line
      → B.bytes b ≡ line ++ (crlf ++ rest)
      → B.find_crlf b ≡ some (length line)
  pub retrieved :
      (b : B.Buf) (n : ℕ) → n ≤ length (B.bytes b) → B.bytes (B.retrieve n b) ≡ drop n (B.bytes b)
  pub appended : (b : B.Buf) (t : Text) → B.bytes (B.append b t) ≡ B.bytes b ++ t
