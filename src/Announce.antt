-- ===== src/Announce.antt =====
-- btor/bhttp.cpp and `urlEncode`, `generateId` of btor/butils.cpp: the parts of the announce request.
pub mod Url
pub mod Encode
pub mod PeerId
use btor.Base.{
  ℕ, zero, suc, ◌+◌, ◌-◌, ◌%◌, ◌^◌, ◌<◌, Bool, true, false, not, Option, none, some, List, [], ◌∷◌,
  ◌++◌,
}
use btor.Base.{Bytes, codes, length, take, drop, get_elem?, ltb, ◌==◌, if◌then◌else◌}
use btor.Base.Decimal.{decimal, decimal_int}
use btor.Base.Int.{ℤ}
use btor.Base.Outcome
use btor.Base.Outcome.{Outcome, ok, raised, out_of_range, exited, undefined}

-- The last position of a character, counted from `i`.
unfoldable pub find_last : ℕ → ℕ → Bytes → Option ℕ
find_last c i [] = none
find_last c i (x ∷ xs) = elim (find_last c (suc i) xs) [
  | some n ↦ some n
  | none ↦ if x == c then some i else none
]

-- `std::string::npos` where `size_t` has `w` bits.
abbrev pub npos : ℕ → ℕ
npos w = 2 ^ w - 1

or_npos : ℕ → Option ℕ → ℕ
or_npos w none = npos w
or_npos w (some n) = n

-- `find_last_of(c)`, a `size_t`
unfoldable pub find_last_of : ℕ → Bytes → ℕ → ℕ
unfolding or_npos find_last
find_last_of w s c = or_npos w (find_last c 0 s)

-- `const unsigned int pathSeperatorIndex = announceUrl.find_last_of('/');`
unfoldable pub path_seperator_index : ℕ → Bytes → ℕ
unfolding find_last_of
path_seperator_index w announce_url = find_last_of w announce_url b'/' % 2 ^ 32

abbrev pub exit_failure : ℕ
exit_failure = 1

-- `substr(0, n)` and `substr(pos)`, which throws past the end.
unfoldable pub substr_from : Bytes → ℕ → Outcome Bytes
substr_from s from = if ltb (length s) from then raised out_of_range else ok (drop from s)

unfoldable pub get_server_address : ℕ → Bytes → Outcome Bytes
unfolding path_seperator_index
get_server_address w announce_url =
    let i = path_seperator_index w announce_url in
    if i == npos w then exited exit_failure else ok (take i announce_url)

-- `pathSeperatorIndex + 1` is an `unsigned int`.
unfoldable pub get_announce_path : ℕ → Bytes → Outcome Bytes
unfolding path_seperator_index substr_from
get_announce_path w announce_url =
    let i = path_seperator_index w announce_url in
    if i == npos w then exited exit_failure else substr_from announce_url ((i + 1) % 2 ^ 32)

-- The loop of `urlEncode` from counter `i`, an `unsigned int`.
unfoldable pub encode_from : ℕ → Bytes → Bytes
encode_from i [] = []
encode_from i (ch ∷ rest) =
    (if i % 2 == 0 then b'%' ∷ [] else []) ++ ch ∷ encode_from ((i + 1) % 2 ^ 32) rest

unfoldable pub url_encode : Bytes → Bytes
unfolding encode_from
url_encode input_string = encode_from 0 input_string

-- `while (unique_id.size() < 20)`; `rands` is what `rand()` returns, call by call, and ends the loop
-- with `none` where it is too short.
unfoldable pub id_loop : Bytes → List ℕ → Option Bytes
id_loop unique_id [] = if ltb (length unique_id) 20 then none else some unique_id
id_loop unique_id (r ∷ rands) =
    let more = id_loop (unique_id ++ decimal (r % 10)) rands in
    if ltb (length unique_id) 20 then more else some unique_id

unfoldable pub generate_id : List ℕ → Option Bytes
unfolding id_loop
generate_id rands = id_loop (codes "-btor01-") rands

unfoldable pub build_announce_parameters : Bytes → ℤ → Bytes → Bytes → Bytes
build_announce_parameters info_hash_hex total_length peer_id b_event =
    codes "?info_hash="
    ++ (url_encode info_hash_hex
        ++ (codes "&peer_id="
            ++ (peer_id
                ++ (codes "&uploaded=0&downloaded=0&left="
                    ++ (decimal_int total_length
                        ++ (codes "&event=" ++ (b_event ++ codes "&port=6886")))))))

abbrev errors : List Bytes
errors =
    codes "Success"
    ∷ codes "Unknown"
    ∷ codes "Connection"
    ∷ codes "BindIPAddress"
    ∷ codes "Read"
    ∷ codes "Write"
    ∷ codes "ExceedRedirectCount"
    ∷ codes "Canceled"
    ∷ codes "SSLConnection"
    ∷ codes "SSLLoadingCerts"
    ∷ codes "SSLServerVerification"
    ∷ codes "UnsupportedMultipartBoundaryChars"
    ∷ []

entry : Option Bytes → Outcome Bytes
entry none = undefined
entry (some s) = ok s

-- `Errors[errorNo]`: outside the array this is undefined.
unfoldable pub interpret_http_lib_error : ℕ → Outcome Bytes
unfolding entry
interpret_http_lib_error error_no = entry (get_elem? errors error_no)

unfoldable pub interpret_tracker_response_code : ℕ → Bytes
interpret_tracker_response_code response_code =
    if response_code == 100
    then codes "Invalid request type: Client request was not an HTTP GET"
    else if response_code == 101
    then codes "Missing info_hash"
    else if response_code == 102
    then codes "Missing peer_id"
    else if response_code == 103
    then codes "Missing port"
    else if response_code == 150
    then codes "Invalid info_hash: info_hash is not 20 bytes long"
    else if response_code == 151
    then codes "Invalid peerid: peerid is not 20 bytes long"
    else if response_code == 152
    then codes "Invalid numwant. Client requested more peers than allowed by tracker"
    else if response_code == 200
    then codes "info_hash not found in database."
    else if response_code == 500
    then codes "Client sent an eventless request before the specified time."
    else codes "Generic error"

-- What `cli.Get(path)` of the HTTP library gives: a response, or no response and an error number.
pub data Reply : Type 0 where
  response : ℕ → Bytes → Reply
  failure : ℕ → Reply

interpret_reply : Reply → Outcome Bytes
interpret_reply (response status body) =
    if not (status == 200) then exited exit_failure else ok body
interpret_reply (failure err) =
    Outcome.bind (interpret_http_lib_error err) λ message. exited exit_failure

-- `makeGetRequest`, over the library's client: address, then path.
unfoldable pub make_get_request : (Bytes → Bytes → Reply) → Bytes → Bytes → Outcome Bytes
unfolding interpret_reply interpret_http_lib_error
make_get_request client address path = interpret_reply (client address path)
