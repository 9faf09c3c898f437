-- ===== src/Buffer.antt =====
-- src/internal/buffer.hpp: a growing array of bytes with a read and a write cursor. Capacities are
-- those of arrays in memory, so their sums and doubles are below 2 ^ 64 and do not wrap. A contract
-- (`ERIKSLUND_HTTP_PRE`) is a hypothesis of the theorems.
pub mod Queue
pub mod Runs
use erikslund_http_embedded.Prelude.{
  ℕ, ◌+◌, ◌-◌, ◌*◌, max, ◌++◌, ltb, leb, ◌==◌, if◌then◌else◌, Bytes, length, take, drop, replicate,
}

abbrev pub initial_buffer_bytes : ℕ
initial_buffer_bytes = 4096

abbrev pub buffer_growth_factor : ℕ
buffer_growth_factor = 2

pub record Buffer : Type 0 where
  pub storage : Bytes
  pub read_cursor : ℕ
  pub write_cursor : ℕ

abbrev pub size : Buffer → ℕ
size b = b.write_cursor - b.read_cursor

abbrev pub capacity : Buffer → ℕ
capacity b = length b.storage

abbrev pub writable_capacity : Buffer → ℕ
writable_capacity b = length b.storage - b.write_cursor

unfoldable pub readable : Buffer → Bytes
readable b = take (b.write_cursor - b.read_cursor) (drop b.read_cursor b.storage)

-- `vector::resize`: new bytes are zero.
unfoldable pub resize : ℕ → Bytes → Bytes
resize n s = take n s ++ replicate (n - length s) 0

-- `copy_n` to an offset of the storage.
unfoldable pub overwrite : Bytes → ℕ → Bytes → Bytes
overwrite s offset bytes = take offset s ++ (bytes ++ drop (offset + length bytes) s)

unfoldable pub grow_to : Buffer → ℕ → Buffer
unfolding resize
grow_to b target = record b { storage = resize (max target initial_buffer_bytes) b.storage }

-- The span that is returned is the storage behind the write cursor.
unfoldable pub writable_tail : Buffer → ℕ → Buffer
unfolding grow_to
writable_tail b minimum =
    if ltb (writable_capacity b) minimum
    then grow_to b (max (b.write_cursor + minimum) (length b.storage * buffer_growth_factor))
    else b

unfoldable pub commit : Buffer → ℕ → Buffer
commit b bytes = record b { write_cursor = b.write_cursor + bytes }

unfoldable pub clear : Buffer → Buffer
clear b = record b { read_cursor = 0; write_cursor = 0 }

unfoldable pub consume : Buffer → ℕ → Buffer
unfolding clear
consume b bytes =
    let read = b.read_cursor + bytes in
    if read == b.write_cursor then clear b else record b { read_cursor = read }

unfoldable pub compact : Buffer → Buffer
unfolding overwrite
compact b =
    let live = size b in
    if b.read_cursor == 0 then b else record {
      storage = overwrite b.storage 0 (readable b);
      read_cursor = 0;
      write_cursor = live;
    }

unfoldable pub compact_and_reclaim : Buffer → ℕ → Buffer
unfolding compact
compact_and_reclaim b retained_capacity =
    let c = compact b in
    let target = max (size c) (max retained_capacity initial_buffer_bytes) in
    if leb (length c.storage) target
    then c
    else record c { storage = overwrite (replicate target 0) 0 (take (size c) c.storage) }

unfoldable pub append : Buffer → Bytes → Buffer
unfolding writable_tail commit overwrite
append b bytes =
    let t = writable_tail b (length bytes) in
    commit (record t { storage = overwrite t.storage t.write_cursor bytes }) (length bytes)
