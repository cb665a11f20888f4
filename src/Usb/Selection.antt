-- ===== src/Usb/Selection.antt =====
-- Which endpoints `from_interface` of nusb-scsi/src/lib.rs opens.
use canoe_nusb_storage.Common.{
  ℕ, ◌*◌, ◌≤◌, ◌<◌, ◌==◌, ◌≡◌, ◌≢◌, ◌∙◌, refl, sym, ap, inl, inr, Bool, true, none, some, List, [],
  ◌∷◌, ◌++◌, bit_and, find, arith, Bool-cases,
}
use canoe_nusb_storage.Common.Outcome.{Outcome, ok, >>=-ok}
use canoe_nusb_storage.Scsi.Error.{TransferError}
use canoe_nusb_storage.Usb.{
  Nusb, NusbIo, Descriptor, EndpointInfo, bulk, is_input, is_output, from_interface, initialize,
  with_max_lun, parse_max_lun, validate_timeout, nanoseconds,
}

-- `x` is the first of the list that passes the test.
pub record IsFirst {A : Type 0} (test : A → Bool) (xs : List A) (x : A) : Type 0 where
  pub before : List A
  pub after : List A
  pub split : xs ≡ before ++ (x ∷ after)
  pub passes : test x ≡ true
  pub earlier : find test before ≡ none

pub find-IsFirst :
    {A : Type 0} (test : A → Bool) (xs : List A) (x : A) → find test xs ≡ some x → IsFirst test xs x
find-IsFirst test [] x h = cc
find-IsFirst test (y ∷ ys) x h = elim (Bool-cases (test y)) [
  | inl hit ↦
      let same : y ≡ x = ground arith in
      record {
        before = [];
        after = ys;
        split = ground arith;
        passes = rw (← same) hit;
        earlier = refl;
      }
  | inr miss ↦
      let rest = find-IsFirst test ys x (ground arith) in
      record {
        before = y ∷ rest.before;
        after = rest.after;
        split = ground (arith, rest.split);
        passes = rest.passes;
        earlier = ground (arith, rest.earlier);
      }
]

is_input_iff :
    (e : EndpointInfo) → is_input e ≡ true → (e.transfer_type ≡ bulk) × (bit_and e.address 0x80 ≢ 0)
unfolding is_input
is_input_iff e h = grind arith

is_output_iff :
    (e : EndpointInfo)
    → is_output e ≡ true
    → (e.transfer_type ≡ bulk) × (bit_and e.address 0x80 ≡ 0)
unfolding is_output
is_output_iff e h = grind arith

parse_max_lun-le : (r : Outcome TransferError (List ℕ)) (n : ℕ) → parse_max_lun r ≡ ok n → n ≤ 15
unfolding parse_max_lun
parse_max_lun-le r n h = ground arith

module _ {W I P : Type 0} (nusb : Nusb W I P) where
  -- What the tests of `from_interface` and its calls leave.
  record Opened (interface : I) (alternate : ℕ) (w : W) (io : NusbIo I P) (after : W) : Type 0 where
    active : nusb.get_alt_setting interface w ≡ alternate
    descriptor : Descriptor
    selected :
        find (λ d. d.alternate_setting == alternate) (nusb.descriptors interface) ≡ some descriptor
    class : descriptor.class ≡ 0xff
    subclass : descriptor.subclass ≡ 6
    protocol : descriptor.protocol ≡ 0x50
    input : EndpointInfo
    output : EndpointInfo
    first_input : find is_input descriptor.endpoints ≡ some input
    first_output : find is_output descriptor.endpoints ≡ some output
    between : W
    input_opened : nusb.endpoint interface input.address w ≡ (ok io.input, between)
    output_opened : nusb.endpoint interface output.address between ≡ (ok io.output, after)
    packet_size : io.input_packet_size ≡ input.max_packet_size

  from_interface-Opened :
      (interface : I) (alternate : ℕ) (w : W) (io : NusbIo I P) (w' : W)
      → from_interface nusb interface alternate w ≡ (ok io, w')
      → Opened interface alternate w io w'
  unfolding from_interface
  from_interface-Opened interface alternate w io w' h = grind arith

  with_max_lun_bounds :
      (interface : I) (timeout : ℕ) (first io : NusbIo I P) (w w' : W)
      → with_max_lun nusb interface timeout first w ≡ (ok io, w')
      → (io.max_lun ≤ 15)
        × (io.input ≡ first.input)
        × (io.output ≡ first.output)
        × (io.input_packet_size ≡ first.input_packet_size)
  unfolding with_max_lun
  with_max_lun_bounds interface timeout first io w w' h = grind (arith, parse_max_lun-le)

  initialize_time :
      (interface : I) (alternate timeout : ℕ) (w : W) (io : NusbIo I P) (w' : W)
      → initialize nusb interface alternate timeout w ≡ (ok io, w')
      → (validate_timeout timeout ≡ ok tt) × (0 < timeout) × (timeout ≤ 60 * nanoseconds)
  unfolding initialize validate_timeout
  initialize_time interface alternate timeout w io w' h = grind arith

  initialize_steps :
      (interface : I) (alternate timeout : ℕ) (w : W) (io : NusbIo I P) (w' : W)
      → initialize nusb interface alternate timeout w ≡ (ok io, w')
      → (first : NusbIo I P) × ((from_interface nusb interface alternate w).0 ≡ ok first)
        × (with_max_lun nusb interface timeout first (from_interface nusb interface alternate w).1
            ≡ (ok io, w'))
  unfolding initialize
  initialize_steps interface alternate timeout w io w' h =
      >>=-ok (with_max_lun nusb interface timeout) (from_interface nusb interface alternate w).0 w
        (from_interface nusb interface alternate w).1
        (rw (initialize_time interface alternate timeout w io w' h).0 at h)

  -- The transport `io` of the endpoints of the interface's active alternate setting: the first bulk
  -- endpoint of each direction.
  pub record IsTransport (interface : I) (alternate timeout : ℕ) (w : W) (io : NusbIo I P)
      : Type 0 where
    pub some_time : 0 < timeout
    pub short_time : timeout ≤ 60 * nanoseconds
    pub max_lun : io.max_lun ≤ 15
    pub active : nusb.get_alt_setting interface w ≡ alternate
    pub descriptor : Descriptor
    pub listed :
        IsFirst (λ d. d.alternate_setting == alternate) (nusb.descriptors interface) descriptor
    pub class : descriptor.class ≡ 0xff
    pub subclass : descriptor.subclass ≡ 6
    pub protocol : descriptor.protocol ≡ 0x50
    pub input : EndpointInfo
    pub first_input : IsFirst is_input descriptor.endpoints input
    pub input_bulk : input.transfer_type ≡ bulk
    pub input_direction : bit_and input.address 0x80 ≢ 0
    pub output : EndpointInfo
    pub first_output : IsFirst is_output descriptor.endpoints output
    pub output_bulk : output.transfer_type ≡ bulk
    pub output_direction : bit_and output.address 0x80 ≡ 0
    pub between : W
    pub after : W
    pub input_opened : nusb.endpoint interface input.address w ≡ (ok io.input, between)
    pub output_opened : nusb.endpoint interface output.address between ≡ (ok io.output, after)
    pub packet_size : io.input_packet_size ≡ input.max_packet_size

  -- Where `initialize` succeeds, the timeout is positive and 60 seconds at most, the alternate
  -- setting is the active one, its first listed descriptor is of class ff/06/50, the transport's
  -- endpoints are those opened for the first bulk IN and the first bulk OUT endpoint of that
  -- descriptor, its packet size is that of the IN endpoint, and its highest LUN is 15 at most.
  pub initialize-IsTransport :
      (interface : I) (alternate timeout : ℕ) (w : W) (io : NusbIo I P) (w' : W)
      → initialize nusb interface alternate timeout w ≡ (ok io, w')
      → IsTransport interface alternate timeout w io
  initialize-IsTransport interface alternate timeout w io w' h =
      let (_, positive, short) = initialize_time interface alternate timeout w io w' h in
      let (first, opened, rest) = initialize_steps interface alternate timeout w io w' h in
      let (lun, same_input, same_output, same_size) =
        with_max_lun_bounds interface timeout first io _ w' rest in
      let last = (from_interface nusb interface alternate w).1 in
      let o = from_interface-Opened interface alternate w first last (ap (λ r. (r, last)) opened) in
      let i = find-IsFirst is_input o.descriptor.endpoints o.input o.first_input in
      let u = find-IsFirst is_output o.descriptor.endpoints o.output o.first_output in
      record {
        some_time = positive;
        short_time = short;
        max_lun = lun;
        active = o.active;
        descriptor = o.descriptor;
        listed = find-IsFirst _ (nusb.descriptors interface) o.descriptor o.selected;
        class = o.class;
        subclass = o.subclass;
        protocol = o.protocol;
        input = o.input;
        first_input = i;
        input_bulk = (is_input_iff o.input i.passes).0;
        input_direction = (is_input_iff o.input i.passes).1;
        output = o.output;
        first_output = u;
        output_bulk = (is_output_iff o.output u.passes).0;
        output_direction = (is_output_iff o.output u.passes).1;
        between = o.between;
        after = last;
        input_opened = o.input_opened ∙ ap (λ p. (ok p, o.between)) (sym same_input);
        output_opened = o.output_opened ∙ ap (λ p. (ok p, last)) (sym same_output);
        packet_size = same_size ∙ o.packet_size;
      }
