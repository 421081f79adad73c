-- ===== src/Config/Exact.antt =====
-- `validate` beside the valid configurations: internal/config/config.go.
use rfid_middleware_idro900e.Prelude.{
  ℕ, suc, ◌≤◌, String, Bool, true, false, not, ◌&&◌, ◌||◌, List, [], ◌∷◌, ◌++◌, some, codes, length,
  All, ◌≡◌, ◌≢◌, ◌⊎◌, ◌↔◌, refl, arith, str_eq, str_eq_iff, leb,
}
use rfid_middleware_idro900e.Prelude.Case.{lower}
use rfid_middleware_idro900e.Prelude.Int.{ℤ, pos, eq_ℤ, eq_ℤ_iff}
use rfid_middleware_idro900e.Config.{
  WireReader, Wire, Platform, Config, config_of, Fault, accepted, verdict, validate, global_faults,
  reader_faults, readers_faults, has_key, check, within, is_version, is_level, bad_version,
  bad_data_dir, bad_debounce, bad_max_age, bad_timeout, bad_power, bad_buzzer, bad_level, bad_count,
}
use rfid_middleware_idro900e.Config.Addr.{id_matches}
use rfid_middleware_idro900e.Config.Valid.{
  IsHost, IsReader, IsAddr, IsToken, In, IsLevel, ids, addrs, tokens, IsValid,
}
use rfid_middleware_idro900e.Config.Checks.{
  append_nil_iff, check_iff, fault_of_iff, within_iff, is_version_iff, is_level_iff, IsHost-iff,
  is_hex64_iff, IsAddr-iff, Fresh, Fresh-iff,
}

not_iff : (b : Bool) → (not b ≡ true) ↔ (b ≡ false)
not_iff b = (λ h. ground (arith, h), λ h. ground (arith, h))

module _ (i : ℕ) (before_ids before_addrs before_tokens : List String) (r : WireReader) where
  abbrev IsNew : Type 0
  IsNew =
      (has_key r.id before_ids ≡ false)
      × ((has_key r.addr before_addrs ≡ false)
          × (has_key (lower r.pulse_token) before_tokens ≡ false))

  all_checks : (reader_faults i before_ids before_addrs before_tokens r ≡ []) ↔ (
      (id_matches (codes r.id) ≡ true)
      × ((has_key r.id before_ids ≡ false)
          × (IsAddr r.addr
              × ((has_key r.addr before_addrs ≡ false)
                  × (IsToken (codes (lower r.pulse_token))
                      × (has_key (lower r.pulse_token) before_tokens ≡ false))))))
  unfolding reader_faults
  all_checks = append_nil_iff _ _ (check_iff _ _ ((λ h. h), (λ h. h))) (
      append_nil_iff _ _ (check_iff _ _ (not_iff _)) (
        append_nil_iff _ _ (fault_of_iff _ _ (IsAddr-iff r.addr)) (
          append_nil_iff _ _ (check_iff _ _ (not_iff _))
            (append_nil_iff _ _ (check_iff _ _ (is_hex64_iff _)) (check_iff _ _ (not_iff _))))))

  -- One reader, behind those that came before.
  IsReader-iff :
      (reader_faults i before_ids before_addrs before_tokens r ≡ []) ↔ (IsReader r × IsNew)
  IsReader-iff = (
    λ h.
        let (a, (b, (c, (d, (e, f))))) = all_checks.0 h in
        (record { named = a; addressed = c; secret = e }, (b, (d, f))),
    λ h. all_checks.1 (h.0.named, (h.1.0, (h.0.addressed, (h.1.1.0, (h.0.secret, h.1.1.1))))),
  )

readers_iff :
    (i : ℕ) (is adds toks : List String) (rs : List WireReader)
    → (readers_faults i is adds toks rs ≡ [])
      ↔ (All IsReader rs × (Fresh is (ids rs) × (Fresh adds (addrs rs) × Fresh toks (tokens rs))))
unfolding readers_faults
readers_iff i is adds toks [] = ((λ h. (tt, (tt, (tt, tt)))), λ h. refl)
readers_iff i is adds toks (r ∷ rs) =
    let both =
      append_nil_iff _ _ (IsReader-iff i is adds toks r)
        (readers_iff (suc i) (r.id ∷ is) (r.addr ∷ adds) (lower r.pulse_token ∷ toks) rs) in
    (
      λ h.
          let ((a, (b, (c, d))), (e, (f, (g, k)))) = both.0 h in
          ((a, e), ((b, f), ((c, g), (d, k)))),
      λ h.
          let ((a, e), ((b, f), ((c, g), (d, k)))) = h in
          both.1 ((a, (b, (c, d))), (e, (f, (g, k)))),
    )

range_iff :
    (lo hi : ℕ) (n : ℤ) (f : Fault)
    → (check (within (pos lo) (pos hi) n) f ≡ []) ↔ In (pos lo) (pos hi) n
range_iff lo hi n f = check_iff (within (pos lo) (pos hi) n) f (within_iff (pos lo) (pos hi) n)

module _ (p : Platform) (w : Wire) where
  global_iff : (global_faults p w (config_of w) ≡ []) ↔ (
      (w.version ≡ some (pos 1))
      × (IsHost p w.api_host
          × (((w.data_dir ≢ "") × (p.is_abs w.data_dir ≡ true))
              × (In (pos 1) (pos 3_600) (config_of w).debounce_sec
                  × (In (pos 1) (pos 24) (config_of w).queue_max_age_hours
                      × (In (pos 1) (pos 30) (config_of w).request_timeout_sec
                          × (In (pos 50) (pos 300) (config_of w).power_gain
                              × ((((config_of w).buzzer ≡ pos 0) ⊎ ((config_of w).buzzer ≡ pos 1))
                                  × (IsLevel (config_of w).log_level
                                      × ((1 ≤ length w.readers) × (length w.readers ≤ 8)))))))))))
  unfolding global_faults
  global_iff =
      append_nil_iff _ _ (check_iff (is_version w.version) bad_version (is_version_iff w.version)) (
        append_nil_iff _ _ (fault_of_iff _ _ (IsHost-iff p w.api_host)) (
          append_nil_iff _ _ (check_iff _ bad_data_dir dir_iff) (
            append_nil_iff _ _ (range_iff 1 3_600 (config_of w).debounce_sec bad_debounce) (
              append_nil_iff _ _ (range_iff 1 24 (config_of w).queue_max_age_hours bad_max_age) (
                append_nil_iff _ _ (range_iff 1 30 (config_of w).request_timeout_sec bad_timeout) (
                  append_nil_iff _ _ (range_iff 50 300 (config_of w).power_gain bad_power) (
                    append_nil_iff _ _ (check_iff _ bad_buzzer (buzzer_iff (config_of w).buzzer)) (
                      append_nil_iff _ _
                        (check_iff (is_level (config_of w).log_level) bad_level
                          (is_level_iff (config_of w).log_level))
                        (check_iff _ bad_count (count_iff (length w.readers)))))))))))
    where
      dir_iff :
          ((not (str_eq w.data_dir "") && p.is_abs w.data_dir) ≡ true)
          ↔ ((w.data_dir ≢ "") × (p.is_abs w.data_dir ≡ true))
      dir_iff = (
        λ h. ((λ e. ground (arith, h, e, str_eq_iff w.data_dir "")), ground (arith, h)),
        λ h. ground (arith, h.0, h.1, str_eq_iff w.data_dir ""),
      )

      buzzer_iff :
          (n : ℤ) → ((eq_ℤ n (pos 0) || eq_ℤ n (pos 1)) ≡ true) ↔ ((n ≡ pos 0) ⊎ (n ≡ pos 1))
      buzzer_iff n = (
        λ h. ground (arith, h, eq_ℤ_iff n (pos 0), eq_ℤ_iff n (pos 1)),
        λ h. ground (arith, h, eq_ℤ_iff n (pos 0), eq_ℤ_iff n (pos 1)),
      )

      count_iff : (n : ℕ) → ((leb 1 n && leb n 8) ≡ true) ↔ ((1 ≤ n) × (n ≤ 8))
      count_iff n = (λ h. (ground (arith, h), ground (arith, h)), λ h. ground (arith, h.0, h.1))

verdict_iff : (c d : Config) (fs : List Fault) → (verdict c fs ≡ accepted d) ↔ ((fs ≡ []) × (d ≡ c))
verdict_iff c d [] = (λ h. (refl, cc h), λ h. cc (h.1))
verdict_iff c d (f ∷ fs) = (λ h. cc h, λ h. cc (h.0))

faults_iff :
    (p : Platform) (w : Wire)
    → (global_faults p w (config_of w) ++ readers_faults 0 [] [] [] w.readers ≡ []) ↔ IsValid p w
faults_iff p w =
    let both = append_nil_iff _ _ (global_iff p w) (readers_iff 0 [] [] [] w.readers) in
    (
      λ h.
          let ((a, (b, (c, (d, (e, (f, (g, (k, (l, m))))))))), (n, (o, (q, r)))) = both.0 h in
          record {
            version = a;
            host = b;
            data_dir = c;
            debounce = d;
            max_age = e;
            timeout = f;
            power = g;
            buzzer = k;
            level = l;
            count = m;
            readers = n;
            own_ids = (Fresh-iff (ids w.readers)).0 o;
            own_addrs = (Fresh-iff (addrs w.readers)).0 q;
            own_tokens = (Fresh-iff (tokens w.readers)).0 r;
          },
      λ v. both.1 (
        (
          v.version,
          (
            v.host,
            (
              v.data_dir,
              (v.debounce, (v.max_age, (v.timeout, (v.power, (v.buzzer, (v.level, v.count)))))),
            ),
          ),
        ),
        (
          v.readers,
          (
            (Fresh-iff (ids w.readers)).1 v.own_ids,
            (
              (Fresh-iff (addrs w.readers)).1 v.own_addrs,
              (Fresh-iff (tokens w.readers)).1 v.own_tokens,
            ),
          ),
        ),
      ),
    )

-- A configuration is accepted exactly where it is valid, and then as the file has it, with the defaults for what is missing and
-- the tokens in lower case.
pub validate_iff :
    (p : Platform) (w : Wire) (c : Config)
    → (validate p w ≡ accepted c) ↔ (IsValid p w × (c ≡ config_of w))
unfolding validate
validate_iff p w c = (
  λ h. let (e, d) = (verdict_iff (config_of w) c _).0 h in ((faults_iff p w).0 e, d),
  λ h. (verdict_iff (config_of w) c _).1 ((faults_iff p w).1 h.0, h.1),
)
