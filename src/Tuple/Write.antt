-- ===== src/Tuple/Write.antt =====
-- tuple.c: the writers `tuple_write_*`, and that each lays out the bytes of its value.
use whosecoin_core.Base.{ℕ, List, [], ◌∷◌, ◌++◌, length, Run, ◌>>=◌}
use whosecoin_core.Bytes.{be_bytes, le_bytes}
use whosecoin_core.Buffer.{Buffer, dynamic_buffer_write, dynamic_buffer_putc}
use whosecoin_core.Buffer.Appends.{Appends, putc-Appends, write-Appends, Appends-then}
use whosecoin_core.Tuple.{
  tuple_start, tuple_end, tuple_i32, tuple_i64, tuple_u32, tuple_u64, tuple_f32, tuple_f64,
  tuple_bool, tuple_binary, tuple_string,
}
use whosecoin_core.Tuple.Values.{
  Scalar, i32, i64, u32, u64, f32, f64, bool, string, binary, encode_scalar,
}

unfoldable pub tuple_write_i32 : ℕ → Buffer → Run Buffer
tuple_write_i32 v file = dynamic_buffer_putc tuple_i32 file >>= dynamic_buffer_write (be_bytes 4 v)

unfoldable pub tuple_write_i64 : ℕ → Buffer → Run Buffer
tuple_write_i64 v file = dynamic_buffer_putc tuple_i64 file >>= dynamic_buffer_write (be_bytes 8 v)

unfoldable pub tuple_write_u32 : ℕ → Buffer → Run Buffer
tuple_write_u32 v file = dynamic_buffer_putc tuple_u32 file >>= dynamic_buffer_write (be_bytes 4 v)

unfoldable pub tuple_write_u64 : ℕ → Buffer → Run Buffer
tuple_write_u64 v file = dynamic_buffer_putc tuple_u64 file >>= dynamic_buffer_write (be_bytes 8 v)

-- A float keeps the host's byte order.
unfoldable pub tuple_write_f32 : ℕ → Buffer → Run Buffer
tuple_write_f32 v file = dynamic_buffer_putc tuple_f32 file >>= dynamic_buffer_write (le_bytes 4 v)

unfoldable pub tuple_write_f64 : ℕ → Buffer → Run Buffer
tuple_write_f64 v file = dynamic_buffer_putc tuple_f64 file >>= dynamic_buffer_write (le_bytes 8 v)

unfoldable pub tuple_write_bool : ℕ → Buffer → Run Buffer
tuple_write_bool v file =
    dynamic_buffer_putc tuple_bool file >>= dynamic_buffer_write (le_bytes 1 v)

-- `strlen(v) + 1` bytes of the zero-terminated `v`
unfoldable pub tuple_write_string : List ℕ → Buffer → Run Buffer
tuple_write_string v file =
    dynamic_buffer_putc tuple_string file >>= dynamic_buffer_write (v ++ 0 ∷ [])

-- The size is written in the host's byte order, as the low four bytes of a `size_t`.
unfoldable pub tuple_write_binary : List ℕ → Buffer → Run Buffer
tuple_write_binary v file =
    dynamic_buffer_putc tuple_binary file
    >>= dynamic_buffer_write (le_bytes 4 (length v))
    >>= dynamic_buffer_write v

unfoldable pub tuple_write_start : Buffer → Run Buffer
tuple_write_start file = dynamic_buffer_putc tuple_start file

unfoldable pub tuple_write_end : Buffer → Run Buffer
tuple_write_end file = dynamic_buffer_putc tuple_end file

-- The writer of each kind of scalar; the code writes no null.
abbrev pub write_scalar : Scalar → Buffer → Run Buffer
write_scalar (i32 v) = tuple_write_i32 v
write_scalar (i64 v) = tuple_write_i64 v
write_scalar (u32 v) = tuple_write_u32 v
write_scalar (u64 v) = tuple_write_u64 v
write_scalar (f32 v) = tuple_write_f32 v
write_scalar (f64 v) = tuple_write_f64 v
write_scalar (bool v) = tuple_write_bool v
write_scalar (string s) = tuple_write_string s
write_scalar (binary s) = tuple_write_binary s
write_scalar Scalar.null = dynamic_buffer_putc b'n'

-- Every writer appends exactly the bytes of its value.
pub write_scalar-Appends : (s : Scalar) → Appends (write_scalar s) (encode_scalar s)
unfolding encode_scalar tuple_write_i32 tuple_write_i64 tuple_write_u32 tuple_write_u64
    tuple_write_f32 tuple_write_f64 tuple_write_bool tuple_write_string tuple_write_binary
write_scalar-Appends Scalar.null = putc-Appends b'n'
write_scalar-Appends (i32 v) =
    Appends-then _ _ (putc-Appends tuple_i32) (write-Appends (be_bytes 4 v))
write_scalar-Appends (i64 v) =
    Appends-then _ _ (putc-Appends tuple_i64) (write-Appends (be_bytes 8 v))
write_scalar-Appends (u32 v) =
    Appends-then _ _ (putc-Appends tuple_u32) (write-Appends (be_bytes 4 v))
write_scalar-Appends (u64 v) =
    Appends-then _ _ (putc-Appends tuple_u64) (write-Appends (be_bytes 8 v))
write_scalar-Appends (f32 v) =
    Appends-then _ _ (putc-Appends tuple_f32) (write-Appends (le_bytes 4 v))
write_scalar-Appends (f64 v) =
    Appends-then _ _ (putc-Appends tuple_f64) (write-Appends (le_bytes 8 v))
write_scalar-Appends (bool v) =
    Appends-then _ _ (putc-Appends tuple_bool) (write-Appends (le_bytes 1 v))
write_scalar-Appends (string s) =
    Appends-then _ _ (putc-Appends tuple_string) (write-Appends (s ++ 0 ∷ []))
write_scalar-Appends (binary s) =
    Appends-then (tuple_binary ∷ le_bytes 4 (length s)) s
      (Appends-then _ _ (putc-Appends tuple_binary) (write-Appends (le_bytes 4 (length s))))
      (write-Appends s)

pub tuple_write_start-Appends : Appends tuple_write_start (tuple_start ∷ [])
unfolding tuple_write_start
tuple_write_start-Appends = putc-Appends tuple_start

pub tuple_write_end-Appends : Appends tuple_write_end (tuple_end ∷ [])
unfolding tuple_write_end
tuple_write_end-Appends = putc-Appends tuple_end
