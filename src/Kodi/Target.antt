-- ===== src/Kodi/Target.antt =====
-- Which Kodi is connected to: `DeduplicateInstances` and `ResolveTarget` of
-- src/core/kodi_client.cpp, on what the mDNS browse found.
pub mod Unique
pub mod Chosen
use homedeck.Base.{
  ℕ, ◌||◌, ◌&&◌, ◌==◌, Bool, true, false, not, Option, none, some, List, [], ◌∷◌, ◌++◌,
  if◌then◌else◌, is_empty, bytes_eq, ltb,
}
use homedeck.Base.Text.{codes}
use homedeck.Codec.Decimal.{to_string}
use homedeck.Harmony.Host.{has_unsafe_host_chars}

-- `MdnsService` of src/platform/mdns_browser.h; `txt` is a map.
pub record MdnsService : Type 0 where
  pub instance_name : List ℕ
  pub hostname : List ℕ
  pub port : ℕ
  pub address : List ℕ
  pub txt : List (List ℕ × List ℕ)

pub record KodiDiscoveredInstance : Type 0 where
  pub name : List ℕ
  pub host : List ℕ
  pub uuid : List ℕ

pub record Target : Type 0 where
  pub host : List ℕ
  pub port : ℕ

abbrev pub default_port : ℕ
default_port = 9090

unfoldable pub find_txt : List ℕ → List (List ℕ × List ℕ) → Option (List ℕ)
find_txt key [] = none
find_txt key ((k, v) ∷ txt) = if bytes_eq k key then some v else find_txt key txt

unfoldable pub has_colon : List ℕ → Bool
has_colon [] = false
has_colon (c ∷ cs) = c == b':' || has_colon cs

-- 0 without an address, 2 for an IPv4 address, 1 for an IPv6 one.
unfoldable pub rank : MdnsService → ℕ
unfolding has_colon
rank s = if is_empty s.address then 0 else if has_colon s.address then 1 else 2

name_and_port : MdnsService → List ℕ
unfolding to_string
name_and_port s = codes "n:" ++ s.instance_name ++ codes ":" ++ to_string s.port

key_for : MdnsService → Option (List ℕ) → List ℕ
unfolding name_and_port
key_for s none = name_and_port s
key_for s (some uuid) = if is_empty uuid then name_and_port s else codes "u:" ++ uuid

-- What tells one Kodi from another.
unfoldable pub instance_key : MdnsService → List ℕ
unfolding key_for find_txt
instance_key s = key_for s (find_txt (codes "uuid") s.txt)

-- The instance that is kept of two with one key.
unfoldable pub preferred : MdnsService → MdnsService → MdnsService
preferred s u = if ltb (rank u) (rank s) then s else u

-- One instance is put to the others, of which each key has one.
unfoldable pub merge_instance : MdnsService → List MdnsService → List MdnsService
merge_instance s [] = s ∷ []
merge_instance s (u ∷ unique) =
    let rest = u ∷ merge_instance s unique in
    if bytes_eq (instance_key u) (instance_key s) then preferred s u ∷ unique else rest

unfoldable pub merge_all : List MdnsService → List MdnsService → List MdnsService
unfolding merge_instance
merge_all unique [] = unique
merge_all unique (s ∷ instances) = merge_all (merge_instance s unique) instances

unfoldable pub deduplicate_instances : List MdnsService → List MdnsService
unfolding merge_all
deduplicate_instances instances = merge_all [] instances

front_is_bracket : List ℕ → Bool
front_is_bracket [] = false
front_is_bracket (c ∷ cs) = c == b'['

unfoldable pub host_port_authority : List ℕ → ℕ → List ℕ
unfolding has_colon front_is_bracket to_string
host_port_authority host port =
    let authority =
      if has_colon host && not (front_is_bracket host)
      then codes "[" ++ host ++ codes "]"
      else host in
    authority ++ codes ":" ++ to_string port

unfoldable pub web_socket_url : List ℕ → ℕ → List ℕ
unfolding host_port_authority
web_socket_url host port = codes "ws://" ++ host_port_authority host port ++ codes "/jsonrpc"

unfoldable pub is_valid_kodi_host : List ℕ → Bool
unfolding has_unsafe_host_chars
is_valid_kodi_host value = not (has_unsafe_host_chars value false)

unfoldable pub is_valid_kodi_setting : List ℕ → List ℕ → Bool
unfolding is_valid_kodi_host
is_valid_kodi_setting key value = not (bytes_eq key (codes "host")) || is_valid_kodi_host value

unfoldable pub address_or_hostname : MdnsService → List ℕ
address_or_hostname s = if is_empty s.address then s.hostname else s.address

unfoldable pub is_usable : MdnsService → Bool
unfolding address_or_hostname has_unsafe_host_chars
is_usable s =
    let host = address_or_hostname s in
    not (is_empty host || s.port == 0 || has_unsafe_host_chars host true)

unfoldable pub keep_usable : List MdnsService → List MdnsService
unfolding is_usable
keep_usable [] = []
keep_usable (s ∷ instances) =
    let rest = keep_usable instances in if is_usable s then s ∷ rest else rest

pub has_uuid : List ℕ → MdnsService → Bool
unfolding find_txt
has_uuid uuid s = elim (find_txt (codes "uuid") s.txt) [
  | some value ↦ bytes_eq value uuid
  | none ↦ false
]

pub find_uuid : List ℕ → List MdnsService → Option MdnsService
unfolding has_uuid
find_uuid uuid [] = none
find_uuid uuid (s ∷ instances) = if has_uuid uuid s then some s else find_uuid uuid instances

pub only : List MdnsService → Option MdnsService
only (s ∷ []) = some s
only _ = none

-- An instance without a resolved address is never connected to.
pub with_address : Option MdnsService → Option MdnsService
with_address none = none
with_address (some s) = if is_empty s.address then none else some s

unfoldable pub choose : List ℕ → List MdnsService → Option MdnsService
unfolding find_uuid only with_address
choose selected_uuid instances =
    with_address
      (if is_empty selected_uuid then only instances else find_uuid selected_uuid instances)

listed : MdnsService → KodiDiscoveredInstance
unfolding address_or_hostname find_txt
listed s = record {
  name = s.instance_name;
  host = address_or_hostname s;
  uuid = elim (find_txt (codes "uuid") s.txt) [ some uuid ↦ uuid | none ↦ [] ];
}

unfoldable pub list_discovered : List MdnsService → List KodiDiscoveredInstance
unfolding listed
list_discovered [] = []
list_discovered (s ∷ instances) = listed s ∷ list_discovered instances

-- What `ResolveTarget` found, and what it writes to the snapshot.
pub record Resolved : Type 0 where
  pub target : Option Target
  pub resolved_host : List ℕ
  pub target_configured : Bool
  pub selected_uuid : List ℕ
  pub discovered : List KodiDiscoveredInstance

pub manual : List ℕ → Resolved
manual host = record {
  target = some (record { host = host; port = default_port });
  resolved_host = host;
  target_configured = true;
  selected_uuid = [];
  discovered = [];
}

pub target_of : Option MdnsService → Option Target
target_of none = none
target_of (some s) = some (record { host = s.address; port = s.port })

resolved_host_of : Option MdnsService → List ℕ
unfolding host_port_authority
resolved_host_of none = []
resolved_host_of (some s) = host_port_authority s.address s.port

pub saved_or_empty : Option (List ℕ) → List ℕ
saved_or_empty none = []
saved_or_empty (some value) = value

unfoldable pub usable_instances : List MdnsService → List MdnsService
unfolding keep_usable deduplicate_instances
usable_instances browsed = deduplicate_instances (keep_usable browsed)

pub browsed_target : List ℕ → List MdnsService → Resolved
unfolding choose target_of resolved_host_of list_discovered
browsed_target selected_uuid instances =
    let chosen = choose selected_uuid instances in
    record {
      target = target_of chosen;
      resolved_host = resolved_host_of chosen;
      target_configured = not (is_empty selected_uuid);
      selected_uuid = selected_uuid;
      discovered = list_discovered instances;
    }

unfoldable pub has_manual_host : Option (List ℕ) → Bool
unfolding is_valid_kodi_host
has_manual_host none = false
has_manual_host (some host) = not (is_empty host) && is_valid_kodi_host host

-- `saved_host` and `saved_uuid` are the stored settings.
unfoldable pub resolve_target : Option (List ℕ) → Option (List ℕ) → List MdnsService → Resolved
unfolding manual browsed_target usable_instances has_manual_host saved_or_empty
resolve_target saved_host saved_uuid browsed =
    if has_manual_host saved_host
    then manual (saved_or_empty saved_host)
    else browsed_target (saved_or_empty saved_uuid) (usable_instances browsed)
