-- ===== src/LocalHost.antt =====
-- storage_global.c: the table of the machine's own addresses.
pub mod Slots
use demostroage.Prelude.{
  ℕ, zero, suc, ◌+◌, ◌*◌, ◌≤◌, Bool, true, false, [], ◌∷◌, ◌++◌, leb, if◌then◌else◌, eqb, Bytes,
  length, take, drop, replicate, ℤ, pos, negsuc,
}
use demostroage.Libc.{cstr}

-- `FDFS_IPADDR_SIZE` and `STORAGE_MAX_LOCAL_IP_ADDRS`
abbrev pub ip_size : ℕ
ip_size = 16

abbrev pub max_local_ips : ℕ
max_local_ips = 4

-- `g_local_host_ip_addrs` and `g_local_host_ip_count`
pub record Table : Type 0 where
  pub addrs : Bytes
  pub count : ℕ

abbrev pub empty : Table
empty = record { addrs = replicate (max_local_ips * ip_size) 0; count = 0 }

-- the loop of `is_local_host_ip`: `p` moves by one byte, for `n` bytes
unfoldable pub local_loop : Bytes → ℕ → Bytes → Bool
unfolding cstr
local_loop ip zero p = false
local_loop ip (suc n) p =
    let rest = local_loop ip n (drop 1 p) in if eqb ip (cstr p) then true else rest

unfoldable pub is_local_host_ip : Table → Bytes → Bool
unfolding local_loop
is_local_host_ip t ip = local_loop ip (ip_size * t.count) t.addrs

-- `strcpy` to an offset, with the NUL
abbrev pub copy_at : ℕ → Bytes → Bytes → Bytes
copy_at at ip addrs = take at addrs ++ (ip ++ (0 ∷ drop (at + length ip + 1) addrs))

-- `insert_into_local_host_ip`
unfoldable pub insert_local : Table → Bytes → ℤ × Table
insert_local t ip =
    if is_local_host_ip t ip
    then (pos 0, t)
    else if leb max_local_ips t.count
    then (negsuc 0, t)
    else (pos 1, record { addrs = copy_at (ip_size * t.count) ip t.addrs; count = t.count + 1 })
