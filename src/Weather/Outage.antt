-- ===== src/Weather/Outage.antt =====
-- What is shown when the network fails behind a reading.
use homedeck.Base.{
  ℕ, ◌≤◌, ◌≡◌, refl, ◌∙◌, ap, true, false, Option, none, some, List, arith, ltb, bytes_eq,
}
use homedeck.Base.Int.{ℤ, pos}
use homedeck.Base.Text.{codes}
use homedeck.Json.{object, find, try_parse_json_object}
use homedeck.Kodi.Reply.{Doubles}
use homedeck.Storage.{KeyValueStore, get_versioned, set_versioned}
use homedeck.Storage.Laws.{get_versioned-set_versioned}
use homedeck.Weather.{
  Outside, Provider, clamp_weather_code, reading, read_response, read_cached, cache_entry,
  cache_key, module_id, is_configured, shown_name, store_reading, show, reading_state, show_cached,
  show_response, poll_once, setting, poll_url,
}

-- IEEE 754: small integers are exact.
pub record IsExact (d : Doubles) : Type 0 where
  pub order :
      (m n : ℕ) → m ≤ 99 → n ≤ 99 → d.less (d.of_integer (pos m)) (d.of_integer (pos n)) ≡ ltb m n
  pub back : (n : ℕ) → n ≤ 99 → d.truncate (d.of_integer (pos n)) ≡ pos n

clamp_small :
    (d : Doubles) (n : ℕ) → IsExact d → n ≤ 99 → clamp_weather_code d (d.of_integer (pos n)) ≡ pos n
unfolding clamp_weather_code
clamp_small d n x h =
    ground (arith, x.order n 0 h (omega arith), x.order 99 n (omega arith) h, x.back n h)

reading-cache_entry :
    (d : Doubles) (t n : ℕ) (name : List ℕ)
    → IsExact d
    → n ≤ 99
    → reading d (codes "temperature_c") (cache_entry t (pos n) name) ≡ some (t, pos n)
unfolding reading cache_entry find bytes_eq
reading-cache_entry d t n name x h = ap (λ c. some (t, c)) (clamp_small d n x h)

module _ (o : Outside) (s : KeyValueStore) where
  configured_poll :
      (get : List ℕ → Option (ℕ × List ℕ)) (p : Provider o s) (r : Option (ℕ × ℤ))
      → is_configured o s p ≡ true
      → read_response o.doubles o.parse (get (poll_url o s p)) ≡ r
      → poll_once o s get p ≡ show_response o s r p
  unfolding poll_once
  configured_poll get p r c e = rw (c, e) refl

  -- The text that a reading is cached as.
  abbrev entry_text : ℕ → ℕ → Provider o s → List ℕ
  entry_text t n p = o.dump (object (cache_entry t (pos n) (shown_name o s p)))

  -- The cache takes a reading, and the JSON library reads back what it dumped.
  pub record IsCached (t n : ℕ) (p : Provider o s) : Type 0 where
    pub written : (set_versioned s p.cache module_id cache_key (pos 1) (entry_text t n p)).0 ≡ true
    pub reads :
        try_parse_json_object o.parse (entry_text t n p)
        ≡ some (cache_entry t (pos n) (shown_name o s p))

  abbrev fresh : ℕ → ℕ → Provider o s → Provider o s
  fresh t n p = show_response o s (some (t, pos n)) p

  cached_reading :
      (t n : ℕ) (p : Provider o s)
      → IsExact o.doubles
      → n ≤ 99
      → IsCached t n p
      → read_cached o.doubles o.parse (get_versioned s (fresh t n p).cache module_id cache_key)
        ≡ some (t, pos n)
  unfolding read_cached show_response show store_reading
  cached_reading t n p x h c =
      ap (read_cached o.doubles o.parse) (
        get_versioned-set_versioned s p.cache module_id cache_key (pos 1) (entry_text t n p)
          (omega arith) c.written)
      ∙ rw c.reads (reading-cache_entry o.doubles t n (shown_name o s p) x h)

  outage :
      (get : List ℕ → Option (ℕ × List ℕ)) (t n : ℕ) (p : Provider o s)
      → IsExact o.doubles
      → n ≤ 99
      → IsCached t n p
      → is_configured o s p ≡ true
      → read_response o.doubles o.parse (get (poll_url o s p)) ≡ none
      → (poll_once o s get (fresh t n p)).state ≡ record (fresh t n p).state { live = false }
  unfolding show_response show reading_state show_cached shown_name is_configured poll_url setting
  outage get t n p x h c configured e =
      ap (λ q. q.state) (configured_poll get (fresh t n p) none configured e)
      ∙ ap (λ r. (show_cached o s r (fresh t n p)).state) (cached_reading t n p x h c)

  -- A poll of a configured place reads a code of at most 99, and it is cached; the next poll, with the
  -- same settings, gets no reading. Then that poll shows the same temperature, code and name, and
  -- marks them as not live. Small integers have to be exact doubles.
  pub poll_once-outage :
      (get get' : List ℕ → Option (ℕ × List ℕ)) (t n : ℕ) (p : Provider o s)
      → IsExact o.doubles
      → n ≤ 99
      → IsCached t n p
      → is_configured o s p ≡ true
      → read_response o.doubles o.parse (get (poll_url o s p)) ≡ some (t, pos n)
      → read_response o.doubles o.parse (get' (poll_url o s p)) ≡ none
      → (poll_once o s get' (poll_once o s get p)).state ≡ record {
        configured = true;
        has_reading = true;
        live = false;
        temperature_c = t;
        weather_code = pos n;
        display_name = shown_name o s p;
      }
  unfolding show_response show reading_state
  poll_once-outage get get' t n p x h c configured good bad =
      ap (λ q. (poll_once o s get' q).state)
        (configured_poll get p (some (t, pos n)) configured good)
      ∙ outage get' t n p x h c configured bad
