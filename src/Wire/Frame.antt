-- ===== src/Wire/Frame.antt =====
-- crates/ntd-runtime/src/action_checkpoint.rs: the header of 24 bytes before the payload, which the
-- checkpoint formats share but for the magic and the version.
use ntd.Prelude.{
  ℕ, ◌+◌, ◌≤◌, ◌≡◌, ◌≢◌, refl, sym, ap, ◌∙◌, append_assoc, false, ◌||◌, not, [], ◌∷◌, ◌++◌, ltb,
  ◌==◌, ==_iff, length, Result, ok, err, ok-injective, if◌then◌else◌, arith, length-append, inl,
  inr, Bool-cases, text_eq, text_eq_refl, subst,
}
use ntd.Prelude.Utf8.{Bytes}
use ntd.Prelude.Words.{usize_max}
use ntd.Wire.Cursor.{
  WireErrors, cursor_new, Decoder, ◌>>=◌, ◌>>◌, pure, check, take, without_n, u16, u32, u64,
}
use ntd.Wire.Push.{Encoder, ◌⧺◌, done, extend_from_slice, push_u16, push_u32, push_u64, le_bytes}
use ntd.Wire.Trips.{Trips, ⧺-eq-ok, ⧺->>=, check-Trips, done-pure}
use ntd.Wire.RoundTrip.{
  without_n-append, slice-take, push_u16-Trips, push_u32-Trips, push_u64-Trips,
}

-- What a format's header holds, and the errors of a frame that is not one of it.
pub record Format (E : Type 0) : Type 0 where
  pub magic : Bytes
  pub major : ℕ
  pub minor : ℕ
  pub invalid_magic : E
  pub invalid_header : E
  pub unsupported_version : ℕ → ℕ → E
  pub non_canonical : E

abbrev pub header_len : ℕ
header_len = 24

module _ {E : Type 0} ⦃w : WireErrors E⦄ (f : Format E) where
  -- The header of a payload of `n` bytes.
  unfoldable pub push_header : ℕ → Encoder E
  unfolding ◌⧺◌ done extend_from_slice push_u16 push_u32 push_u64
  push_header n =
      extend_from_slice f.magic
      ⧺ (push_u16 header_len
          ⧺ (push_u16 f.major ⧺ (push_u16 f.minor ⧺ (push_u32 0 ⧺ (push_u64 n ⧺ done)))))

  -- The checks of the header, and the length that it names.
  unfoldable pub read_header : Decoder E ℕ
  unfolding ◌>>=◌ ◌>>◌ pure check take u16 u32 u64 text_eq
  read_header = do
    magic ← take 6
    check (not (text_eq magic f.magic)) f.invalid_magic
    len ← u16
    check (not (len == header_len)) f.invalid_header
    major ← u16
    minor ← u16
    check (not (major == f.major) || ltb f.minor minor) (f.unsupported_version major minor)
    flags ← u32
    check (not (flags == 0)) f.invalid_header
    payload_len ← u64
    pure payload_len

  unfoldable pub seal : Bytes → Encoder E
  unfolding push_header ◌⧺◌ extend_from_slice
  seal payload =
      if ltb usize_max (header_len + length payload)
      then err w.overflow
      else push_header (length payload) ⧺ extend_from_slice payload

  -- The bytes behind the header, if their number is the one that it names.
  unfoldable pub payload_of : Bytes → ℕ → Result E Bytes
  payload_of bytes payload_len =
      if ltb usize_max (header_len + payload_len)
      then err w.overflow
      else if not (length bytes == header_len + payload_len)
      then err f.non_canonical
      else ok (without_n header_len bytes)

  unfoldable pub open_frame : Bytes → Result E Bytes
  unfolding read_header payload_of
  open_frame bytes =
      if ltb (length bytes) header_len
      then err w.truncated
      else elim (read_header (cursor_new bytes)) [ ok r ↦ payload_of bytes r.0 | err e ↦ err e ]

-- A format that can be written.
pub record IsFormat {E : Type 0} (f : Format E) : Type 0 where
  pub magic_six : length f.magic ≡ 6
  pub major_small : f.major ≤ 65535
  pub minor_small : f.minor ≤ 65535

module _ {E : Type 0} ⦃w : WireErrors E⦄ (f : Format E) (good : IsFormat f) where
  push_header-Trips : (n : ℕ) → n ≤ usize_max → Trips (push_header f n) (read_header f) n
  unfolding push_header read_header
  push_header-Trips n h =
      subst (λ m. Trips (push_header f n) (take m >>= rest) n) good.magic_six
        (⧺->>= rest (slice-take f.magic) (
          check-Trips _ _ (rw (text_eq_refl f.magic) refl) (
            ⧺->>= _ (push_u16-Trips {v = 24} (omega arith)) (
              check-Trips _ f.invalid_header refl (
                ⧺->>= _ (push_u16-Trips good.major_small) (
                  ⧺->>= _ (push_u16-Trips good.minor_small) (
                    check-Trips _ _ (ground arith) (
                      ⧺->>= _ (push_u32-Trips {v = 0} (omega arith)) (
                        check-Trips _ f.invalid_header refl
                          (⧺->>= _ (push_u64-Trips h) done-pure))))))))))
    where
      rest : Bytes → Decoder E ℕ
      rest magic = do
        check (not (text_eq magic f.magic)) f.invalid_magic
        len ← u16
        check (not (len == header_len)) f.invalid_header
        major ← u16
        minor ← u16
        check (not (major == f.major) || ltb f.minor minor) (f.unsupported_version major minor)
        flags ← u32
        check (not (flags == 0)) f.invalid_header
        payload_len ← u64
        pure payload_len

  tail : ℕ → Bytes
  tail n =
      le_bytes 2 24
      ++ (le_bytes 2 f.major ++ (le_bytes 2 f.minor ++ (le_bytes 4 0 ++ (le_bytes 8 n ++ []))))

  length-push_header : (n : ℕ) {hdr : Bytes} → push_header f n ≡ ok hdr → length hdr ≡ header_len
  unfolding push_header ◌⧺◌ done extend_from_slice push_u16 push_u32 push_u64 le_bytes tail
  length-push_header n h =
      subst (λ bs. length bs ≡ header_len) (ok-injective h)
        (length-append f.magic (tail n) ∙ rw good.magic_six refl)

  payload_behind :
      (hdr payload : Bytes)
      → length hdr ≡ header_len
      → ltb usize_max (header_len + length payload) ≡ false
      → payload_of f (hdr ++ payload) (length payload) ≡ ok payload
  unfolding payload_of
  payload_behind hdr payload l fits =
      let total : length (hdr ++ payload) ≡ header_len + length payload =
        length-append hdr payload ∙ rw l refl in
      rw (fits, total)
        (rw ((==_iff (header_len + length payload) (header_len + length payload)).1 refl) (
          ap ok
            (subst (λ n. without_n n (hdr ++ payload) ≡ payload) l (without_n-append hdr payload))))

  open_frame-append :
      (hdr payload : Bytes)
      → push_header f (length payload) ≡ ok hdr
      → ltb usize_max (header_len + length payload) ≡ false
      → open_frame f (hdr ++ payload) ≡ ok payload
  unfolding open_frame
  open_frame-append hdr payload e fits =
      let l = length-push_header (length payload) e in
      let n = length-append hdr payload in
      let long : ltb (length (hdr ++ payload)) header_len ≡ false = ground (arith, l, n) in
      let small : length payload ≤ usize_max = ground (arith, fits) in
      let room : 0 + length hdr ≤ usize_max = omega (arith, l) in
      let read = ((push_header-Trips (length payload) small).trips hdr e).reads 0 payload room in
      rw (long, read) (payload_behind hdr payload l fits)

  -- A frame opens to its payload.
  pub open_frame-seal :
      (payload : Bytes) {bytes : Bytes}
      → seal f payload ≡ ok bytes
      → open_frame f bytes ≡ ok payload
  unfolding seal extend_from_slice
  open_frame-seal payload {bytes} h =
      elim (Bool-cases (ltb usize_max (header_len + length payload))) [
        | inl e ↦ let k = rw e at h in cc
        | inr e ↦
            let (hdr, ys, e₁, e₂, split) =
              ⧺-eq-ok (push_header f (length payload)) (extend_from_slice payload) (rw e at h) in
            subst (λ bs. open_frame f bs ≡ ok payload)
              (sym (split ∙ ap (λ bs. hdr ++ bs) (sym (ok-injective e₂))))
              (open_frame-append hdr payload e₁ e)
      ]

  -- What was sealed fits the address space.
  pub seal-fits :
      (payload : Bytes) {bytes : Bytes} → seal f payload ≡ ok bytes → length payload ≤ usize_max
  unfolding seal
  seal-fits payload h = elim (Bool-cases (ltb usize_max (header_len + length payload))) [
    | inl e ↦ let k = rw e at h in cc
    | inr e ↦ ground (arith, e)
  ]

  -- A frame with more or fewer bytes behind its header than it names is refused.
  pub open_frame-other :
      (payload other : Bytes) {hdr : Bytes}
      → push_header f (length payload) ≡ ok hdr
      → header_len + length payload ≤ usize_max
      → length other ≢ length payload
      → open_frame f (hdr ++ other) ≡ err f.non_canonical
  unfolding open_frame payload_of
  open_frame-other payload other {hdr} e fits ne =
      let l = length-push_header (length payload) e in
      let n = length-append hdr other in
      let long : ltb (length (hdr ++ other)) header_len ≡ false = ground (arith, l, n) in
      let small : length payload ≤ usize_max = omega (arith, fits) in
      let room : 0 + length hdr ≤ usize_max = omega (arith, l) in
      let read = ((push_header-Trips (length payload) small).trips hdr e).reads 0 other room in
      let inside : ltb usize_max (header_len + length payload) ≡ false = ground (arith, fits) in
      let unequal : (length (hdr ++ other) == header_len + length payload) ≡ false =
        ground (arith, l, n, ne) in
      rw (long, read) (rw (inside, unequal) refl)

  -- So is a sealed frame with bytes behind it.
  pub open_frame-trailing :
      (payload extra : Bytes) {bytes : Bytes}
      → seal f payload ≡ ok bytes
      → extra ≢ []
      → open_frame f (bytes ++ extra) ≡ err f.non_canonical
  unfolding seal extend_from_slice
  open_frame-trailing payload extra {bytes} h ne =
      elim (Bool-cases (ltb usize_max (header_len + length payload))) [
        | inl e ↦ let k = rw e at h in cc
        | inr e ↦
            let (hdr, ys, e₁, e₂, split) =
              ⧺-eq-ok (push_header f (length payload)) (extend_from_slice payload) (rw e at h) in
            subst (λ bs. open_frame f bs ≡ err f.non_canonical)
              (sym (
                ap (λ bs. bs ++ extra) (split ∙ ap (λ bs. hdr ++ bs) (sym (ok-injective e₂)))
                ∙ append_assoc hdr payload extra))
              (open_frame-other payload (payload ++ extra) e₁ (ground (arith, e)) (longer extra ne))
      ]
    where
      longer : (extra : Bytes) → extra ≢ [] → length (payload ++ extra) ≢ length payload
      longer [] ne = absurd (ne refl)
      longer (x ∷ xs) ne =
          λ k. let n = length-append payload (x ∷ xs) in absurd (omega (arith, n, k))
