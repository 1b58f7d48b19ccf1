-- ===== src/Session/Frame.antt =====
-- include/grlx/rpc/session.hpp: the header of a frame, its types and the frames that the session
-- builds. The five words go over the wire as they lie in memory, on a little-endian host.
use grlx_rpc.Prelude.{
  codes, ℕ, ◌+◌, ◌*◌, ◌/◌, ◌%◌, ◌^◌, ◌<◌, ◌≡◌, refl, Option, none, some, List, [], ◌∷◌, ◌++◌, arith,
  nat_eq, ◌==◌, length, if◌then◌else◌,
}
use grlx_rpc.Buffer.{Buffer}
use grlx_rpc.Hash.{CharSign, shash64}

-- `header_type`, by the indices MAGIC_HEADER_IDX, MSG_SIZE_IDX, MSG_TYPE_IDX, CALL_ID_IDX and
-- USER_TOKEN_IDX.
pub record Header : Type 0 where
  pub magic : ℕ
  pub msg_size : ℕ
  pub msg_type : ℕ
  pub call_id : ℕ
  pub user_token : ℕ

abbrev pub magic_header_number : ℕ
magic_header_number = 0xBADC0FFEE

pub data MsgType : Type 0 where
  nop request response notification error ping pong : MsgType

-- `static_cast<std::uint64_t>(type) << 32`.
abbrev pub type_word : MsgType → ℕ
type_word nop = 0
type_word request = 1 * 2 ^ 32
type_word response = 2 * 2 ^ 32
type_word notification = 3 * 2 ^ 32
type_word error = 4 * 2 ^ 32
type_word ping = 5 * 2 ^ 32
type_word pong = 6 * 2 ^ 32

-- `static_cast<msg_type>(word >> 32)`, and `none` for the default of the switch.
msg_type_code : ℕ → Option MsgType
msg_type_code c =
    if c == 0
    then some nop
    else if c == 1
    then some request
    else if c == 2
    then some response
    else if c == 3
    then some notification
    else if c == 4
    then some error
    else if c == 5
    then some ping
    else if c == 6
    then some pong
    else none

unfoldable pub to_msg_type : ℕ → Option MsgType
unfolding msg_type_code
to_msg_type word = msg_type_code (word / 2 ^ 32)

-- `msg_type_to_string`, of a value of the enumeration or of another number.
unfoldable pub msg_type_to_string : Option MsgType → List ℕ
msg_type_to_string (some nop) = codes "nop"
msg_type_to_string (some request) = codes "request"
msg_type_to_string (some response) = codes "response"
msg_type_to_string (some notification) = codes "notification"
msg_type_to_string (some error) = codes "error"
msg_type_to_string (some ping) = codes "ping"
msg_type_to_string (some pong) = codes "pong"
msg_type_to_string none = codes "unknown"

-- The bytes of a word, least significant first.
word_bytes : ℕ → List ℕ
word_bytes n =
    n % 256
    ∷ n / 2 ^ 8 % 256
    ∷ n / 2 ^ 16 % 256
    ∷ n / 2 ^ 24 % 256
    ∷ n / 2 ^ 32 % 256
    ∷ n / 2 ^ 40 % 256
    ∷ n / 2 ^ 48 % 256
    ∷ n / 2 ^ 56 % 256
    ∷ []

-- `asio::buffer(header.data(), header.size() * sizeof(uint64_t))`.
unfoldable pub header_bytes : Header → List ℕ
unfolding word_bytes
header_bytes h =
    word_bytes h.magic
    ++ (word_bytes h.msg_size
        ++ (word_bytes h.msg_type ++ (word_bytes h.call_id ++ word_bytes h.user_token)))

word_of : ℕ → ℕ → ℕ → ℕ → ℕ → ℕ → ℕ → ℕ → ℕ
word_of a b c d e f g h =
    a + 2 ^ 8 * b + 2 ^ 16 * c + 2 ^ 24 * d + 2 ^ 32 * e + 2 ^ 40 * f + 2 ^ 48 * g + 2 ^ 56 * h

-- The first word of a list of bytes, given what to do with it and the rest.
next_word : {A : Type 0} → (ℕ → List ℕ → A) → A → List ℕ → A
next_word k bad (a ∷ b ∷ c ∷ d ∷ e ∷ f ∷ g ∷ h ∷ rest) = k (word_of a b c d e f g h) rest
next_word k bad _ = bad

abbrev no_header : Header
no_header = record { magic = 0; msg_size = 0; msg_type = 0; call_id = 0; user_token = 0 }

-- The header that forty bytes fill.
unfoldable pub header_of : List ℕ → Header
unfolding next_word word_of
header_of bytes =
    next_word
      (λ m.
        next_word
          (λ s.
            next_word
              (λ t.
                next_word
                  (λ c.
                    next_word
                      (λ u _. record {
                        magic = m;
                        msg_size = s;
                        msg_type = t;
                        call_id = c;
                        user_token = u;
                      })
                      no_header)
                  no_header)
              no_header)
          no_header)
      no_header bytes

abbrev pub header_size : ℕ
header_size = 40

-- `write_item`.
pub record WriteItem : Type 0 where
  pub header : Header
  pub body : Buffer

-- The header that `call` builds.
unfoldable pub request_header : CharSign → List ℕ → ℕ → ℕ → Header
request_header s call_name size token = record {
  magic = magic_header_number;
  msg_size = size;
  msg_type = type_word request;
  call_id = shash64 s call_name;
  user_token = token;
}

-- That of `notify` and `try_notify`.
unfoldable pub notification_header : CharSign → List ℕ → ℕ → Header
notification_header s call_name size = record {
  magic = magic_header_number;
  msg_size = size;
  msg_type = type_word notification;
  call_id = shash64 s call_name;
  user_token = 0;
}

-- That of `try_ping`, and of the answer to a ping.
abbrev pub keepalive_header : MsgType → Header
keepalive_header t = record {
  magic = magic_header_number;
  msg_size = 0;
  msg_type = type_word t;
  call_id = 0;
  user_token = 0;
}

-- That of `respond`.
unfoldable pub response_header : MsgType → Header → ℕ → Header
response_header t related size = record {
  magic = magic_header_number;
  msg_size = size;
  msg_type = type_word t;
  call_id = related.call_id;
  user_token = related.user_token;
}

-- What `msg_writer` writes for an item.
unfoldable pub item_bytes : WriteItem → List ℕ
unfolding header_bytes
item_bytes item = header_bytes item.header ++ item.body

-- The words of the header fit 64 bits.
pub record IsHeader (h : Header) : Type 0 where
  pub magic_fits : h.magic < 2 ^ 64
  pub size_fits : h.msg_size < 2 ^ 64
  pub type_fits : h.msg_type < 2 ^ 64
  pub call_fits : h.call_id < 2 ^ 64
  pub token_fits : h.user_token < 2 ^ 64

abbrev word_again : ℕ → ℕ
word_again n =
    word_of (n % 256) (n / 2 ^ 8 % 256) (n / 2 ^ 16 % 256) (n / 2 ^ 24 % 256) (n / 2 ^ 32 % 256)
      (n / 2 ^ 40 % 256) (n / 2 ^ 48 % 256) (n / 2 ^ 56 % 256)

word_of-word_bytes : (n : ℕ) → n < 2 ^ 64 → word_again n ≡ n
unfolding word_of
word_of-word_bytes n h = omega arith

-- A header read back from the bytes that were written is the header.
pub header_of-header_bytes : (h : Header) → IsHeader h → header_of (header_bytes h) ≡ h
unfolding header_of header_bytes
header_of-header_bytes h v i = record {
  magic = word_of-word_bytes h.magic v.magic_fits i;
  msg_size = word_of-word_bytes h.msg_size v.size_fits i;
  msg_type = word_of-word_bytes h.msg_type v.type_fits i;
  call_id = word_of-word_bytes h.call_id v.call_fits i;
  user_token = word_of-word_bytes h.user_token v.token_fits i;
}

pub length-header_bytes : (h : Header) → length (header_bytes h) ≡ 40
unfolding header_bytes
length-header_bytes h = refl

-- The type survives the wire, for each of the seven.
pub to_msg_type-type_word : (t : MsgType) → to_msg_type (type_word t) ≡ some t
unfolding to_msg_type
to_msg_type-type_word nop = refl
to_msg_type-type_word _ = refl
