-- ===== src/Selfupdate/Disk/Laws.antt =====
-- What a completed or a failed write of the binary leaves.
use rdda.Common.{Option, none, some, Str, ◌≡◌, refl, ◌⊎◌, arith}
use rdda.Common.Results.{ok, err}
use rdda.Verify.{Bytes}
use rdda.Selfupdate.Disk.{
  File, Node, Env, exec_mode, tick, written, read_bin, read_prev, write_prev, write_bin,
}

abbrev pub content : Option File → Option Bytes
content none = none
content (some f) = some f.bytes

abbrev pub installed : Bytes → Option File
installed b = some (record { bytes = b; mode = exec_mode })

module _ (e : Env) where
  pub write_bin-prev : (b : Bytes) (n : Node) → (write_bin e b n).1.prev ≡ n.prev
  unfolding write_bin
  write_bin-prev b n = ground arith

  -- A write that succeeds leaves the binary with these bytes and mode 0755, whatever the umask.
  pub write_bin-ok :
      (b : Bytes) (n : Node) → (write_bin e b n).0 ≡ ok tt → (write_bin e b n).1.bin ≡ installed b
  unfolding write_bin written
  write_bin-ok b n h = ground arith

  -- A write that fails leaves the old binary, or the new bytes where only the last call failed.
  pub write_bin-err :
      (b : Bytes) (n : Node) (x : Str)
      → (write_bin e b n).0 ≡ err x
      → ((write_bin e b n).1.bin ≡ n.bin) ⊎ (content (write_bin e b n).1.bin ≡ some b)
  unfolding write_bin written
  write_bin-err b n x h = ground arith

  pub write_prev-ok :
      (b : Bytes) (n : Node)
      → (write_prev e b n).0 ≡ ok tt
      → content (write_prev e b n).1.prev ≡ some b
  unfolding write_prev written
  write_prev-ok b n h = ground arith

  pub write_prev-bin : (b : Bytes) (n : Node) → (write_prev e b n).1.bin ≡ n.bin
  unfolding write_prev
  write_prev-bin b n = ground arith

  pub read_bin-ok : (n : Node) (b : Bytes) → (read_bin e n).0 ≡ ok b → content n.bin ≡ some b
  unfolding read_bin
  read_bin-ok n b h = ground arith

  pub read_prev-content :
      (n : Node) (old : Bytes)
      → content n.prev ≡ some old
      → ((read_prev e n).0 ≡ ok old) ⊎ ((x : Str) × ((read_prev e n).0 ≡ err x))
  unfolding read_prev
  read_prev-content n old h = ground arith

  pub read_bin-node : (n : Node) → (read_bin e n).1 ≡ tick n
  unfolding read_bin
  read_bin-node n = refl

  pub read_prev-node : (n : Node) → (read_prev e n).1 ≡ tick n
  unfolding read_prev
  read_prev-node n = refl
