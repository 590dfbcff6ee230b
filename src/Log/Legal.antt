-- ===== src/Log/Legal.antt =====
-- What `PostLoad` of the logging configuration guarantees to the code behind it.
use nacelle.Prelude.{
  ℕ, ◌≡◌, refl, ◌⊎◌, inl, inr, true, none, [], ◌∷◌, map, arith, string_comparable, nat_comparable,
  int_comparable, bytes_comparable, same_bytes, same_bytes_iff, Bytes, codes, lower,
}
use nacelle.Error.{ok}
use nacelle.Log.Message.{
  LogLevel, level_name, level_debug, level_fatal, level_error, level_warning, level_info,
}
use nacelle.Log.Settings.{
  LogConfig, Backend, whitelisted, is_legal_backend, is_legal_level, is_legal_encoding, post_load,
  init_logging,
}

lower_idem : (c : ℕ) → lower (lower c) ≡ lower c
unfolding lower
lower_idem c = ground arith

map-lower_idem : (s : Bytes) → map lower (map lower s) ≡ map lower s
map-lower_idem [] = refl
map-lower_idem (c ∷ s) = rw (lower_idem c, map-lower_idem s) refl

-- The texts that the configuration allows after `PostLoad`: a backend of the switch of `InitLogging`,
-- the name of a level, and an encoding.
abbrev pub IsLegal : LogConfig → Type 0
IsLegal c =
    ((c.log_backend ≡ codes "gomol")
      ⊎ ((c.log_backend ≡ codes "logrus") ⊎ (c.log_backend ≡ codes "zap")))
    × ((level : LogLevel) × (c.log_level ≡ codes (level_name level)))
    × ((c.log_encoding ≡ codes "console") ⊎ (c.log_encoding ≡ codes "json"))

accepted :
    (c : LogConfig)
    → (post_load c).1 ≡ none
    → (is_legal_backend c.log_backend ≡ true)
      × (is_legal_level (map lower c.log_level) ≡ true)
      × (is_legal_encoding c.log_encoding ≡ true)
      × ((post_load c).0 ≡ record c { log_level = map lower c.log_level })
unfolding post_load
accepted c h = (ground arith, ground arith, ground arith, ground arith)

accepts :
    (c : LogConfig)
    → is_legal_backend c.log_backend ≡ true
    → is_legal_level (map lower c.log_level) ≡ true
    → is_legal_encoding c.log_encoding ≡ true
    → map lower c.log_level ≡ c.log_level
    → post_load c ≡ (c, none)
unfolding post_load
accepts c b l e h = ground arith

backend_cases :
    (b : Bytes)
    → is_legal_backend b ≡ true
    → (b ≡ codes "gomol") ⊎ ((b ≡ codes "logrus") ⊎ (b ≡ codes "zap"))
unfolding is_legal_backend whitelisted
backend_cases b h = ground (
  arith,
  same_bytes_iff b (codes "gomol"),
  same_bytes_iff b (codes "logrus"),
  same_bytes_iff b (codes "zap"),
)

level_cases :
    (l : Bytes) → is_legal_level l ≡ true → (level : LogLevel) × (l ≡ codes (level_name level))
unfolding is_legal_level whitelisted level_name
level_cases l h = named_by (
    ground (
      arith,
      same_bytes_iff l (codes "debug"),
      same_bytes_iff l (codes "info"),
      same_bytes_iff l (codes "warning"),
      same_bytes_iff l (codes "error"),
      same_bytes_iff l (codes "fatal"),
    ))
  where
    named_by :
        (l ≡ codes "debug")
          ⊎ ((l ≡ codes "info")
              ⊎ ((l ≡ codes "warning") ⊎ ((l ≡ codes "error") ⊎ (l ≡ codes "fatal"))))
        → (level : LogLevel) × (l ≡ codes (level_name level))
    named_by (inl e) = (level_debug, e)
    named_by (inr (inl e)) = (level_info, e)
    named_by (inr (inr (inl e))) = (level_warning, e)
    named_by (inr (inr (inr (inl e)))) = (level_error, e)
    named_by (inr (inr (inr (inr e)))) = (level_fatal, e)

encoding_cases :
    (s : Bytes) → is_legal_encoding s ≡ true → (s ≡ codes "console") ⊎ (s ≡ codes "json")
unfolding is_legal_encoding
encoding_cases s h =
    ground (arith, same_bytes_iff s (codes "console"), same_bytes_iff s (codes "json"))

-- If `PostLoad` returns no error, then the backend is one that `InitLogging` knows, the level, which
-- is in lower case now, is the name of a level, and the encoding is `console` or `json`. `PostLoad`
-- then accepts the result again and leaves it as it is: `Fetch` runs it on the copy of a
-- configuration on which `Load` has run it.
pub post_load-IsLegal :
    (c : LogConfig)
    → (post_load c).1 ≡ none
    → IsLegal (post_load c).0 × (post_load (post_load c).0 ≡ ((post_load c).0, none))
post_load-IsLegal c h =
    let (b, l, e, q) = accepted c h in
    rw q (
      (
        backend_cases c.log_backend b,
        level_cases (map lower c.log_level) l,
        encoding_cases c.log_encoding e,
      ),
      accepts (record c { log_level = map lower c.log_level }) b (rw (map-lower_idem c.log_level) l)
          e (map-lower_idem c.log_level),
    )

-- What `InitLogging` returns is what the backend of the name in the configuration returns for it.
abbrev pub IsChosen :
    {Logger : Type 0} → Backend Logger → Backend Logger → Backend Logger → LogConfig → Type 0
IsChosen gomol logrus zap c =
    ((c.log_backend ≡ codes "gomol") × (init_logging gomol logrus zap (ok c) ≡ ok (gomol c)))
    ⊎ (((c.log_backend ≡ codes "logrus") × (init_logging gomol logrus zap (ok c) ≡ ok (logrus c)))
        ⊎ ((c.log_backend ≡ codes "zap") × (init_logging gomol logrus zap (ok c) ≡ ok (zap c))))

-- Where `Fetch` gives a configuration that `PostLoad` has accepted, `InitLogging` returns what the
-- backend of the name in it returns for it: some case of its switch applies.
pub init_logging-IsChosen :
    {Logger : Type 0} (gomol logrus zap : Backend Logger) (c : LogConfig)
    → (post_load c).1 ≡ none
    → IsChosen gomol logrus zap (post_load c).0
unfolding init_logging same_bytes
init_logging-IsChosen gomol logrus zap c h = chosen (post_load c).0 (post_load-IsLegal c h).0.0
  where
    chosen :
        (c' : LogConfig)
        → (c'.log_backend ≡ codes "gomol")
          ⊎ ((c'.log_backend ≡ codes "logrus") ⊎ (c'.log_backend ≡ codes "zap"))
        → IsChosen gomol logrus zap c'
    chosen c' (inl e) = inl (e, rw e refl)
    chosen c' (inr (inl e)) = inr (inl (e, rw e refl))
    chosen c' (inr (inr e)) = inr (inr (e, rw e refl))
