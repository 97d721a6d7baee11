-- ===== src/Options/Check.antt =====
-- Which options pass.
use kubemq_cpp.Base.{
  ℕ, if◌then◌else◌, is_empty-ne_nil, ◌≡◌, ◌≢◌, ◌↔◌, refl, Bool, true, false, not, ◌||◌, [],
  is_empty, arith,
}
use kubemq_cpp.Base.Int.{ℤ, pos, negsuc, ◌≤ℤ◌, is_pos, ltb_ℤ}
use kubemq_cpp.Status.{Status, is_ok, is_ok_code}
use kubemq_cpp.Options.{ClientOptions, validate}

pub record IsInRange (o : ClientOptions) : Type 0 where
  pub host : o.host ≢ []
  pub port_low : pos 1 ≤ℤ o.port
  pub port_high : o.port ≤ℤ pos 65535
  pub buffer : pos 1 ≤ℤ o.subscription_buffer_size
  pub receive : pos 1 ≤ℤ o.max_receive_message_size
  pub send : pos 1 ≤ℤ o.max_send_message_size
  pub timeout : pos 1 ≤ℤ o.connection_timeout
  pub callbacks : pos 1 ≤ℤ o.max_concurrent_callbacks
  pub retries_low : pos 0 ≤ℤ o.max_retries
  pub retries_high : o.max_retries ≤ℤ pos 10

guard :
    (b : Bool) (s t : Status)
    → is_ok (if b then s else t) ≡ true
    → is_ok s ≡ false
    → (b ≡ false) × (is_ok t ≡ true)
unfolding is_ok_code
guard true s t h bad = cc
guard false s t h bad = (refl, h)

above_zero : (z : ℤ) → not (is_pos z) ≡ false → pos 1 ≤ℤ z
above_zero (pos n) h = ground arith
above_zero (negsuc n) h = cc

at_most : (z : ℤ) (n : ℕ) → ltb_ℤ (pos n) z ≡ false → z ≤ℤ pos n
at_most z n h = ground arith

at_least : (z : ℤ) → ltb_ℤ z (pos 0) ≡ false → pos 0 ≤ℤ z
at_least z h = ground arith

or_false : (a b : Bool) → a || b ≡ false → (a ≡ false) × (b ≡ false)
or_false a b h = ground arith

-- Options that pass are in range.
pub validate-IsInRange : (o : ClientOptions) → is_ok (validate o) ≡ true → IsInRange o
unfolding validate is_ok_code is_empty
validate-IsInRange o h =
    let (a, h1) = guard (is_empty o.host) _ _ h refl in
    let (b, h2) = guard (not (is_pos o.port)) _ _ h1 refl in
    let (c, h3) = guard (ltb_ℤ (pos 65535) o.port) _ _ h2 refl in
    let (d, h4) = guard (not (is_pos o.subscription_buffer_size)) _ _ h3 refl in
    let (e, h5) = guard (not (is_pos o.max_receive_message_size)) _ _ h4 refl in
    let (f, h6) = guard (not (is_pos o.max_send_message_size)) _ _ h5 refl in
    let (g, h7) = guard (not (is_pos o.connection_timeout)) _ _ h6 refl in
    let (i, h8) = guard (not (is_pos o.max_concurrent_callbacks)) _ _ h7 refl in
    let (j, h9) = guard (ltb_ℤ o.max_retries (pos 0) || ltb_ℤ (pos 10) o.max_retries) _ _ h8 refl in
    let (k, l) = or_false (ltb_ℤ o.max_retries (pos 0)) (ltb_ℤ (pos 10) o.max_retries) j in
    record {
      host = λ e. ground arith;
      port_low = above_zero o.port b;
      port_high = at_most o.port 65535 c;
      buffer = above_zero o.subscription_buffer_size d;
      receive = above_zero o.max_receive_message_size e;
      send = above_zero o.max_send_message_size f;
      timeout = above_zero o.connection_timeout g;
      callbacks = above_zero o.max_concurrent_callbacks i;
      retries_low = at_least o.max_retries k;
      retries_high = at_most o.max_retries 10 l;
    }

to_pos : (z : ℤ) → pos 1 ≤ℤ z → is_pos z ≡ true
to_pos (pos n) h = ground arith
to_pos (negsuc n) h = absurd (omega arith)

to_at_most : (z : ℤ) (n : ℕ) → z ≤ℤ pos n → ltb_ℤ (pos n) z ≡ false
to_at_most z n h = ground arith

to_at_least : (z : ℤ) → pos 0 ≤ℤ z → ltb_ℤ z (pos 0) ≡ false
to_at_least z h = ground arith

IsInRange-validate : (o : ClientOptions) → IsInRange o → is_ok (validate o) ≡ true
unfolding validate is_ok_code
IsInRange-validate o r =
    rw
      (
        is_empty-ne_nil o.host r.host,
        to_pos o.port r.port_low,
        to_at_most o.port 65535 r.port_high,
        to_pos o.subscription_buffer_size r.buffer,
        to_pos o.max_receive_message_size r.receive,
        to_pos o.max_send_message_size r.send,
        to_pos o.connection_timeout r.timeout,
        to_pos o.max_concurrent_callbacks r.callbacks,
        to_at_least o.max_retries r.retries_low,
        to_at_most o.max_retries 10 r.retries_high,
      )
      refl

-- Options pass exactly when there is a host, the port is between 1 and 65535, each size, timeout and
-- limit is above zero, and there are between 0 and 10 retries.
pub validate_lem : (o : ClientOptions) → (is_ok (validate o) ≡ true) ↔ IsInRange o
validate_lem o = (validate-IsInRange o, IsInRange-validate o)
