-- ===== src/Tests/Parser.antt =====
-- The system call on a listing of two devices that comes in two reads.
use embedded_pg.Base.{ℕ, ◌≡◌, refl, List, [], ◌∷◌, ◌++◌, replicate, arith}
use embedded_pg.Base.Int.{pos}
use embedded_pg.Base.Outcome.{ok}
use embedded_pg.Cstring.{Str}
use embedded_pg.Parsebat.Reader.{chunk, Reader, buf_eof, isspace}
use embedded_pg.Parsebat.Parse.{parsebat}
use embedded_pg.Parsebat.Flat.{stream, parse_text}
use embedded_pg.Parsebat.Flat.Header.{parsebat-eq-parse_text}
use embedded_pg.Parsebat.Flat.Rows.{
  Device, IsDevice, listing, device_text, devices_text, parsebat-listing,
}

-- A line with the address cc…c of 17 bytes.
abbrev device : ℕ → Device
device c = record {
  lead = b' ';
  indent = [];
  iface = b'w' ∷ [];
  gap = b' ' ∷ [];
  mac = c ∷ c ∷ c ∷ c ∷ c ∷ c ∷ c ∷ c ∷ c ∷ c ∷ c ∷ c ∷ c ∷ c ∷ c ∷ c ∷ c ∷ [];
  tail = b' ' ∷ [];
}

abbrev devices : List Device
devices = device b'a' ∷ device b'b' ∷ []

-- The second read begins in the second device's address.
abbrev first_read : Str
first_read =
    b'B'
    ∷ b'\n'
    ∷ b'I'
    ∷ b'\n'
    ∷ (b' ' ∷ b'w' ∷ b' ' ∷ ((device b'a').mac ++ b' ' ∷ b'\n' ∷ b' ' ∷ b'w' ∷ b' ' ∷ b'b' ∷ []))

abbrev second_read : Str
second_read = replicate 16 b'b' ++ b' ' ∷ b'\n' ∷ []

-- What an earlier call has left behind is of no account.
abbrev two_reads : Reader
two_reads = record {
  buf = b'?' ∷ [];
  bufsize = pos 1;
  offset = 1;
  state = buf_eof;
  fd = chunk first_read ∷ chunk second_read ∷ [];
}

parsebat-eq-parse_text_example : parsebat 8 two_reads ≡ ok (parse_text 8 (stream two_reads.fd))
parsebat-eq-parse_text_example = parsebat-eq-parse_text 8 two_reads

a_device : IsDevice (device b'a')
unfolding isspace
a_device = record {
  indent_space = tt;
  iface_some = omega arith;
  iface_word = (refl, tt);
  gap_some = omega arith;
  gap_space = (refl, tt);
  mac_length = refl;
  mac_word = (
    refl,
    (
      refl,
      (
        refl,
        (
          refl,
          (
            refl,
            (
              refl,
              (
                refl,
                (refl, (refl, (refl, (refl, (refl, (refl, (refl, (refl, (refl, (refl, tt)))))))))),
              ),
            ),
          ),
        ),
      ),
    ),
  );
  tail_line = (refl, tt);
}

b_device : IsDevice (device b'b')
unfolding isspace
b_device = record {
  indent_space = tt;
  iface_some = omega arith;
  iface_word = (refl, tt);
  gap_some = omega arith;
  gap_space = (refl, tt);
  mac_length = refl;
  mac_word = (
    refl,
    (
      refl,
      (
        refl,
        (
          refl,
          (
            refl,
            (
              refl,
              (
                refl,
                (refl, (refl, (refl, (refl, (refl, (refl, (refl, (refl, (refl, (refl, tt)))))))))),
              ),
            ),
          ),
        ),
      ),
    ),
  );
  tail_line = (refl, tt);
}

parsebat-listing_example :
    parsebat 8 two_reads
    ≡ ok (record { ndev = pos 2; macs = (device b'a').mac ∷ (device b'b').mac ∷ [] })
unfolding isspace stream listing devices_text device_text
parsebat-listing_example =
    parsebat-listing 8 two_reads (b'B' ∷ []) (b'I' ∷ []) devices (refl, tt) (refl, tt)
      (a_device, (b_device, tt)) refl
