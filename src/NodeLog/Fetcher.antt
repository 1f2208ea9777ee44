-- ===== src/NodeLog/Fetcher.antt =====
-- fetcher.go: the requests to the kubelet's log endpoint, and what their answers mean.
--
-- `get` issues a GET for a node and path segments, with the start of a range if one is asked for, and
-- `get_raw` is the listing's request: they are client-go's and net/http's. `trim_space` and `parse_int`
-- are strings.TrimSpace and strconv.ParseInt.
mod Range
pub mod Listing
mod Examples
use cloud_operator.Prelude.{
  ℕ, zero, suc, ◌+◌, ◌≡◌, Bool, true, false, not, ◌&&◌, ◌||◌, Option, none, some, List, [], ◌∷◌,
  ◌++◌, ltb, eqb, length, if◌then◌else◌, ◌==◌,
}
use cloud_operator.Bytes.{Bytes, bytes_comparable, strip_prefix}
use cloud_operator.NodeLog.Rotation.{RotatedFile, parse_rotation_filename}
use cloud_operator.NodeLog.Client.{
  Offset, at, negative, Fetched, fetch_error, range_not_satisfiable, fetched, Opened, open_error,
  not_found, opened, Setup,
}

pub record Response : Type 0 where
  pub status : ℕ
  pub content_range : Bytes
  pub body : Bytes
  pub broken : Bool

-- The parts of a path between its slashes, but for the empty ones.
unfoldable pub split_path : Bytes → Bytes → List Bytes
split_path part [] = if part == [] then [] else part ∷ []
split_path part (c ∷ s) =
    let rest = split_path [] s in
    let longer = split_path (part ++ c ∷ []) s in
    if eqb c b'/' then (if part == [] then rest else part ∷ rest) else longer

abbrev default_path : Bytes
default_path =
    b'a' ∷ b'w' ∷ b's' ∷ b'-' ∷ b'r' ∷ b'o' ∷ b'u' ∷ b't' ∷ b'e' ∷ b'd' ∷ b'-' ∷ b'e' ∷ b'n' ∷ b'i'
    ∷ b'/' ∷ b'n' ∷ b'e' ∷ b't' ∷ b'w' ∷ b'o' ∷ b'r' ∷ b'k' ∷ b'-' ∷ b'p' ∷ b'o' ∷ b'l' ∷ b'i'
    ∷ b'c' ∷ b'y' ∷ b'-' ∷ b'a' ∷ b'g' ∷ b'e' ∷ b'n' ∷ b't' ∷ b'.' ∷ b'l' ∷ b'o' ∷ b'g' ∷ []

-- NetworkPolicyAgentLogPathSegments: "logs" in front of the parts of the path.
unfoldable pub log_path_segments : Bytes → List Bytes
unfolding split_path
log_path_segments path =
    (b'l' ∷ b'o' ∷ b'g' ∷ b's' ∷ []) ∷ split_path [] (if path == [] then default_path else path)

-- dirSegments: all but the last, if there is more than one.
unfoldable pub all_but_last : List Bytes → List Bytes
all_but_last [] = []
all_but_last (s ∷ []) = []
all_but_last (s ∷ t ∷ ss) = s ∷ all_but_last (t ∷ ss)

unfoldable pub dir_segments : List Bytes → List Bytes
unfolding all_but_last
dir_segments [] = []
dir_segments (s ∷ []) = s ∷ []
dir_segments (s ∷ t ∷ ss) = s ∷ all_but_last (t ∷ ss)

unfoldable pub active_base_name : List Bytes → Bytes
active_base_name [] = []
active_base_name (s ∷ []) = s
active_base_name (s ∷ t ∷ ss) = active_base_name (t ∷ ss)

-- What stands before the first dash, if there is one.
unfoldable pub before_dash : Bytes → Option Bytes
before_dash [] = none
before_dash (c ∷ s) =
    let rest = before_dash s in
    if eqb c b'-' then some [] else elim rest [ none ↦ none | some t ↦ some (c ∷ t) ]

abbrev pub bytes_unit : Bytes
bytes_unit = b'b' ∷ b'y' ∷ b't' ∷ b'e' ∷ b's' ∷ b' ' ∷ []

-- A parsed start, unless it is negative or none.
unfoldable pub start_or : ℕ → Option Offset → ℕ
start_or fallback none = fallback
start_or fallback (some negative) = fallback
start_or fallback (some (at n)) = n

module _ (parse_int : Bytes → Option Offset) where
  -- The dash must not come first.
  unfoldable pub start_of_spec : ℕ → Option Bytes → ℕ
  unfolding start_or
  start_of_spec fallback none = fallback
  start_of_spec fallback (some []) = fallback
  start_of_spec fallback (some (c ∷ digits)) = start_or fallback (parse_int (c ∷ digits))

  -- parseContentRangeStart
  unfoldable pub parse_content_range_start : (Bytes → Bytes) → Bytes → ℕ → ℕ
  unfolding start_of_spec
  parse_content_range_start trim_space header fallback =
      elim (strip_prefix bytes_unit (trim_space header)) [
        | none ↦ fallback
        | some spec ↦ start_of_spec fallback (before_dash spec)
      ]

-- The bytes up to a quote, if one comes before a question mark.
unfoldable pub up_to_quote : Bytes → Option Bytes
up_to_quote [] = none
up_to_quote (c ∷ s) =
    let rest = up_to_quote s in
    if eqb c b'"'
    then some []
    else if eqb c b'?'
    then none
    else elim rest [ none ↦ none | some t ↦ some (c ∷ t) ]

abbrev pub href : Bytes
href = b'h' ∷ b'r' ∷ b'e' ∷ b'f' ∷ b'=' ∷ b'"' ∷ []

-- The name in a match of hrefPattern that begins here; it is not empty.
unfoldable pub match_href : Bytes → Option Bytes
unfolding up_to_quote
match_href s = elim (strip_prefix href s) [
  | none ↦ none
  | some rest ↦ elim (up_to_quote rest) [
    | none ↦ none
    | some [] ↦ none
    | some (c ∷ name) ↦ some (c ∷ name)
  ]
]

-- The names of all matches, one behind the other; the number of bytes left of the last one is passed
-- over.
unfoldable pub hrefs : ℕ → Bytes → List Bytes
unfolding match_href
hrefs n [] = []
hrefs (suc n) (c ∷ s) = hrefs n s
hrefs zero (c ∷ s) = elim (match_href (c ∷ s)) [
  | none ↦ hrefs zero s
  | some name ↦ name ∷ hrefs (length name + 6) s
]

module _ (is_timestamp : Bytes → Bool) where
  unfoldable pub rotations_of : Bytes → List Bytes → List RotatedFile
  rotations_of base [] = []
  rotations_of base (name ∷ names) =
      let rest = rotations_of base names in
      elim (parse_rotation_filename is_timestamp name base) [ none ↦ rest | some f ↦ f ∷ rest ]

module _ {W : Type 0} (get : Bytes → List Bytes → Option ℕ → W → Option Response × W)
    (get_raw : Bytes → List Bytes → W → Option Bytes × W) (trim_space : Bytes → Bytes)
    (parse_int : Bytes → Option Offset) (is_timestamp : Bytes → Bool) (log_path : Bytes) where
  -- rawGet: a range is asked for if it does not start at 0.
  unfoldable pub raw_get : Bytes → List Bytes → ℕ → W → Option Response × W
  raw_get node segments range_start w =
      get node segments (if ltb 0 range_start then some range_start else none) w

  unfoldable pub fetched_of : ℕ → Option Response → Fetched
  unfolding parse_content_range_start
  fetched_of range_start none = fetch_error
  fetched_of range_start (some r) =
      if eqb r.status 206
      then fetched (at (parse_content_range_start parse_int trim_space r.content_range range_start))
          r.body r.broken
      else if eqb r.status 200
      then fetched (at 0) r.body r.broken
      else if eqb r.status 416
      then range_not_satisfiable
      else fetch_error

  -- fetchActive
  pub fetch_active : Bytes → ℕ → W → Fetched × W
  unfolding raw_get fetched_of log_path_segments
  fetch_active node range_start w =
      let (r, w') = raw_get node (log_path_segments log_path) range_start w in
      (fetched_of range_start r, w')

  opened_of : Option Response → Opened
  opened_of none = open_error
  opened_of (some r) =
      if eqb r.status 200
      then opened r.body r.broken
      else if eqb r.status 404
      then not_found
      else open_error

  -- open
  pub open_rotated : Bytes → Bytes → W → Opened × W
  unfolding raw_get opened_of dir_segments log_path_segments
  open_rotated node filename w =
      let (r, w') = raw_get node (dir_segments (log_path_segments log_path) ++ filename ∷ []) 0 w in
      (opened_of r, w')

  listed_of : Option Bytes → Option (List RotatedFile)
  unfolding hrefs rotations_of active_base_name log_path_segments
  listed_of none = none
  listed_of (some raw) =
      some (rotations_of is_timestamp (active_base_name (log_path_segments log_path)) (hrefs 0 raw))

  -- list
  pub list_rotations : Bytes → W → Option (List RotatedFile) × W
  unfolding listed_of dir_segments log_path_segments
  list_rotations node w =
      let (r, w') = get_raw node (dir_segments (log_path_segments log_path)) w in (listed_of r, w')

  -- The client over this fetcher.
  pub with_rest_fetcher : {S H : Type 0} → Setup W S H → Setup W S H
  unfolding fetch_active list_rotations open_rotated
  with_rest_fetcher env = record env {
    fetch = fetch_active;
    list = list_rotations;
    open_file = open_rotated;
  }
