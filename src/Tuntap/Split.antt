-- ===== src/Tuntap/Split.antt =====
-- platform/posix/split.rs, and `split` of the devices: the two halves of an interface, which share its
-- descriptor. The last of its owners closes it.
use tache_rs.Prelude.{ℕ, ◌+◌, ◌-◌, ◌==◌, ◌≡◌, refl, false, if◌then◌else◌, List}
use tache_rs.Std.Exec.{Exec, pure}
use tache_rs.Std.Int.{ℤ, is_negative}
use tache_rs.Std.Io.{IoError}
use tache_rs.Tuntap.Fd
use tache_rs.Tuntap.Fd.{Fd, Posix}
use tache_rs.Tuntap.Device.{Device}

-- `Arc<Fd>`, with the number of its owners.
pub record Shared : Type 0 where
  pub fd : Fd
  pub owners : ℕ

abbrev pub clone : Shared → Shared
clone s = record s { owners = s.owners + 1 }

module _ {K : Type 0} (posix : Posix K) where
  -- One owner goes away.
  unfoldable pub release : Shared → K → Shared × K
  unfolding Fd.drop
  release s k =
      if s.owners == 1
      then (record s { owners = 0 }, Fd.drop posix s.fd k)
      else (record s { owners = s.owners - 1 }, k)

  -- `Device::split`: the reader and the writer are two clones; the descriptor itself goes away at the end, and
  -- with it what is left of the device.
  abbrev pub drop_rest : Device → Shared × K → Shared × K
  drop_rest dev (s, k) = (s, Fd.drop posix dev.ctl k)

  unfoldable pub split : Device → K → Shared × K
  unfolding release Fd.drop
  split dev k =
      let fd : Shared = record { fd = dev.tun; owners = 1 } in
      drop_rest dev (release (clone (clone fd)) k)

  -- `Read` and `Write` of a device, and its descriptor.
  unfoldable pub device_read : Device → ℕ → Exec K IoError (List ℕ)
  unfolding Fd.read
  device_read dev n = Fd.read posix dev.tun n

  unfoldable pub device_write : Device → List ℕ → Exec K IoError ℕ
  unfolding Fd.write
  device_write dev buf = Fd.write posix dev.tun buf

  unfoldable pub device_flush : Device → Exec K IoError Unit
  unfolding Fd.flush
  device_flush dev = Fd.flush posix dev.tun

  -- The descriptor for requests is closed, that of the tunnel handed out.
  unfoldable pub device_into_raw_fd : Device → K → ℤ × K
  unfolding Fd.into_raw_fd Fd.drop
  device_into_raw_fd dev k = handed (Fd.into_raw_fd posix dev.tun k)
    where
      handed : ℤ × K → ℤ × K
      handed (raw, k') = (raw, Fd.drop posix dev.ctl k')

  -- `Reader::read`, `Writer::write` and `Writer::flush`
  unfoldable pub read : Shared → ℕ → Exec K IoError (List ℕ)
  read reader n = posix.read reader.fd.raw n

  unfoldable pub write : Shared → List ℕ → Exec K IoError ℕ
  write writer buf = posix.write writer.fd.raw buf

  unfoldable pub flush : Shared → Exec K IoError Unit
  flush writer = pure tt

  -- Splitting a device closes its descriptor for requests at once. That of the tunnel is still
  -- open when one of the two halves has gone, and is closed once, when the other one goes too.
  pub split-release :
      (dev : Device) (k : K)
      → is_negative dev.tun.raw ≡ false
      → is_negative dev.ctl.raw ≡ false
      → let one = release (split dev k).0 (split dev k).1 in
        let two = release one.0 one.1 in
        ((split dev k).1 ≡ posix.close dev.ctl.raw k)
        × (one.1 ≡ posix.close dev.ctl.raw k)
        × (two.1 ≡ posix.close dev.tun.raw (posix.close dev.ctl.raw k))
        × (two.0.owners ≡ 0)
  unfolding split
  split-release dev k tun ctl = (rw ctl refl, rw ctl refl, rw (tun, ctl) refl, refl)
