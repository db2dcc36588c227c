-- ===== src/Http/Writer.antt =====
-- The writing half of a connection, `BufWriter<TcpStream>` of tokio: its state, the bytes written
-- to it so far, and what a call that succeeds adds to them.
use pheidippides.Prelude.{ℕ, List, ◌++◌, Result, ok, ◌≡◌}

pub record Writer (C E : Type 0) : Type 0 where
  pub write_all : C → List ℕ → Result E C
  pub flush : C → Result E C
  pub shutdown : C → Result E C
  pub written : C → List ℕ
  pub written-write_all :
      (c c' : C) (bytes : List ℕ) → write_all c bytes ≡ ok c' → written c' ≡ written c ++ bytes
  pub written-flush : (c c' : C) → flush c ≡ ok c' → written c' ≡ written c
  pub written-shutdown : (c c' : C) → shutdown c ≡ ok c' → written c' ≡ written c
