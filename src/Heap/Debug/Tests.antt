-- ===== src/Heap/Debug/Tests.antt =====
-- Runs of the debugging output of ShompOS/src/memory/heap.c.
use operating_system.Base.{◌≡◌, refl, some, codes}
use operating_system.Heap.Debug.{count_digits, put_digits, addr_to_string}
use operating_system.Ramfs.{◌>>=◌}
use operating_system.Ramfs.Descriptor.{string_at}

-- The digits of an address; of a single one the place before it keeps what was there.
addr_to_string_run :
    (string_at 20 (addr_to_string 100 0x4008000 (λ a. 63)) 100 ≡ some (codes "0x4008000"))
    × (string_at 20 (addr_to_string 100 0xB (λ a. 63)) 100 ≡ some (codes "0x?B"))
unfolding addr_to_string put_digits count_digits string_at ◌>>=◌
addr_to_string_run = (refl, refl)
