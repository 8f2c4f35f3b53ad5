-- ===== src/Bitcoin/Ingestion/Config/Precedence.antt =====
-- Which of the sources of the configuration wins.
use blocxxi.Bitcoin.Ingestion.Config.Cookies.{HasCookie, load_cookie-HasCookie, load_cookie-none}
use blocxxi.Base.{
  ◌⊎◌, ◌≡◌, refl, sym, ap, ◌∙◌, subst, [], ◌∷◌, ◌++◌, List, Bytes, text, Bool, true, false, ◌||◌,
  Option, none, some, is_empty, if◌then◌else◌, Outcome, ok, err, out_of_fuel, ◌>>=◌, Bool-cases,
  inl, inr,
}
use blocxxi.Bitcoin.Ingestion.Observations.{BitcoinCoreRpcConfig, value_or}
use blocxxi.Bitcoin.Ingestion.Config.{
  ResolvedBitcoinCoreRpcConfig, Surroundings, Loading, read_env, parse_port, set_host, set_port,
  set_username, set_password, set_path, override, override_port, apply_env, load_file, load_cookie,
  use_cookie, try_cookies, cookie_candidates, finish_config, unresolved, chosen_path,
  resolve_bitcoin_core_rpc_config_details,
}

-- The texts of a connection: the host, the user, the password, the path.
abbrev pub Texts : Type 0
Texts = Bytes × Bytes × Bytes × Bytes

abbrev pub texts_of : ResolvedBitcoinCoreRpcConfig → Texts
texts_of r = let c = r.config.connection in (c.host, c.username, c.password, c.path)

-- The texts that the variables of a prefix set, and those in `below` otherwise.
unfoldable pub env_over : Surroundings → Bytes → Texts → Texts
unfolding text read_env
env_over w prefix (host, username, password, path) = (
  value_or (read_env w (prefix ++ text "_RPC_HOST")) host,
  value_or (read_env w (prefix ++ text "_RPC_USER")) username,
  value_or (read_env w (prefix ++ text "_RPC_PASSWORD")) password,
  value_or (read_env w (prefix ++ text "_RPC_PATH")) path,
)

module _ (name : Bytes) (r : ResolvedBitcoinCoreRpcConfig) where
  override_host :
      (o : Option Bytes)
      → texts_of (override set_host name o r)
        ≡ (value_or o (texts_of r).0, (texts_of r).1, (texts_of r).2, (texts_of r).3)
  unfolding override
  override_host none = refl
  override_host (some v) = unfold set_host in refl

  override_username :
      (o : Option Bytes)
      → texts_of (override set_username name o r)
        ≡ ((texts_of r).0, value_or o (texts_of r).1, (texts_of r).2, (texts_of r).3)
  unfolding override
  override_username none = refl
  override_username (some v) = unfold set_username in refl

  override_password :
      (o : Option Bytes)
      → texts_of (override set_password name o r)
        ≡ ((texts_of r).0, (texts_of r).1, value_or o (texts_of r).2, (texts_of r).3)
  unfolding override
  override_password none = refl
  override_password (some v) = unfold set_password in refl

  override_path :
      (o : Option Bytes)
      → texts_of (override set_path name o r)
        ≡ ((texts_of r).0, (texts_of r).1, (texts_of r).2, value_or o (texts_of r).3)
  unfolding override
  override_path none = refl
  override_path (some v) = unfold set_path in refl

-- Inversion of a chain.
bind_ok :
    {A B : Type 0} (m : Outcome A) (f : A → Outcome B) {b : B}
    → (m >>= f) ≡ ok b
    → (a : A) × (m ≡ ok a) × (f a ≡ ok b)
bind_ok (ok a) f h = (a, refl, h)
bind_ok (err e) f h = cc
bind_ok out_of_fuel f h = cc

ok_injective : {A : Type 0} {a b : A} → ok a ≡ ok b → a ≡ b
ok_injective h = cc

override_port-texts :
    (name : Bytes) (o : Option Bytes) (r : ResolvedBitcoinCoreRpcConfig)
    {s : ResolvedBitcoinCoreRpcConfig}
    → override_port name o r ≡ ok s
    → texts_of s ≡ texts_of r
unfolding override_port set_port
override_port-texts name none r h = ap texts_of (sym (ok_injective h))
override_port-texts name (some v) r h =
    let (n, e, f) = bind_ok (parse_port v) _ h in ap texts_of (sym (ok_injective f))

-- The variables win over what was set before.
apply_env-texts :
    (w : Surroundings) (prefix : Bytes) (r : ResolvedBitcoinCoreRpcConfig)
    {s : ResolvedBitcoinCoreRpcConfig}
    → apply_env w prefix r ≡ ok s
    → texts_of s ≡ env_over w prefix (texts_of r)
unfolding apply_env env_over
apply_env-texts w prefix r h =
    let host = prefix ++ text "_RPC_HOST" in
    let (t, e, f) =
      bind_ok
        (override_port (prefix ++ text "_RPC_PORT") (read_env w (prefix ++ text "_RPC_PORT"))
          (override set_host host (read_env w host) r))
        _ h in
    let at_port : texts_of t ≡ (
      value_or (read_env w host) (texts_of r).0,
      (texts_of r).1,
      (texts_of r).2,
      (texts_of r).3,
    ) =
      override_port-texts (prefix ++ text "_RPC_PORT") (read_env w (prefix ++ text "_RPC_PORT"))
        (override set_host host (read_env w host) r) e
      ∙ override_host host r (read_env w host) in
    ap texts_of (sym (ok_injective f))
    ∙ override_path _ _ _
    ∙ ap (λ (u : Texts). (u.0, u.1, u.2, value_or (read_env w (prefix ++ text "_RPC_PATH")) u.3))
        (override_password _ _ _
          ∙ ap
              (λ (u : Texts).
                (u.0, u.1, value_or (read_env w (prefix ++ text "_RPC_PASSWORD")) u.2, u.3))
              (override_username _ _ _
                ∙ ap
                    (λ (u : Texts).
                      (u.0, value_or (read_env w (prefix ++ text "_RPC_USER")) u.1, u.2, u.3))
                    at_port))

-- The places of a cookie: the configured file, the data directory, the directory of the configuration.
abbrev pub places : Surroundings → Bytes → Loading → List Bytes
places w path l =
    elim l.cookie_file [ none ↦ [] | some file ↦ file ∷ [] ]
    ++ ((if is_empty l.data_directory then [] else w.join l.data_directory (text ".cookie") ∷ [])
        ++ w.join (w.parent_path path) (text ".cookie") ∷ [])

places_candidates :
    (w : Surroundings) (path : Bytes) (l : Loading) → cookie_candidates w path l ≡ places w path l
unfolding cookie_candidates
places_candidates w path l = chosen l.cookie_file (is_empty l.data_directory)
  where
    last : List Bytes
    last = w.join (w.parent_path path) (text ".cookie") ∷ []

    chosen :
        (file : Option Bytes) (absent : Bool)
        → elim file [
          | none ↦ if absent then last else w.join l.data_directory (text ".cookie") ∷ last
          | some found ↦
              found ∷ (if absent then last else w.join l.data_directory (text ".cookie") ∷ last)
        ]
          ≡ elim file [ none ↦ [] | some found ↦ found ∷ [] ]
            ++ ((if absent then [] else w.join l.data_directory (text ".cookie") ∷ []) ++ last)
    chosen none true = refl
    chosen none false = refl
    chosen (some found) true = refl
    chosen (some found) false = refl

-- What a cookie fills in: the user and the password, where they are empty.
abbrev pub filled : Texts → Bytes → Bytes → Texts
filled (host, username, password, path) user secret = (
  host,
  if is_empty username then user else username,
  if is_empty password then secret else password,
  path,
)

-- The first of the places that has a cookie fills in what is empty.
abbrev pub FilledBy : Surroundings → List Bytes → Texts → Texts → Type 0
FilledBy w [] old new = new ≡ old
FilledBy w (path ∷ paths) old new =
    ((user : Bytes) × (secret : Bytes) × HasCookie w path user secret
      × (new ≡ filled old user secret))
    ⊎ (((user secret : Bytes) → ¬ HasCookie w path user secret) × FilledBy w paths old new)

use_cookie-filled :
    (path user secret : Bytes) (r : ResolvedBitcoinCoreRpcConfig)
    → texts_of (use_cookie path (user, secret) r) ≡ filled (texts_of r) user secret
unfolding use_cookie set_username set_password
use_cookie-filled path user secret r = elim (Bool-cases (is_empty r.config.connection.username)) [
  | inl e ↦ elim (Bool-cases (is_empty r.config.connection.password)) [
    | inl f ↦ rw e (rw f refl)
    | inr f ↦ rw e (rw f refl)
  ]
  | inr e ↦ elim (Bool-cases (is_empty r.config.connection.password)) [
    | inl f ↦ rw e (rw f refl)
    | inr f ↦ rw e (rw f refl)
  ]
]

try_cookies-FilledBy :
    (w : Surroundings) (paths : List Bytes) (r : ResolvedBitcoinCoreRpcConfig)
    → FilledBy w paths (texts_of r) (texts_of (try_cookies w paths r))
unfolding try_cookies
try_cookies-FilledBy w [] r = refl
try_cookies-FilledBy w (path ∷ paths) r =
    tried (load_cookie w path) refl (try_cookies-FilledBy w paths r)
  where
    tried :
        (o : Option (Bytes × Bytes))
        → load_cookie w path ≡ o
        → FilledBy w paths (texts_of r) (texts_of (try_cookies w paths r))
        → FilledBy w (path ∷ paths) (texts_of r) (
            texts_of
              (elim o [ none ↦ try_cookies w paths r | some cookie ↦ use_cookie path cookie r ]))
    tried none e h = inr (load_cookie-none w path e, h)
    tried (some (user, secret)) e h = inl (
      user,
      secret,
      load_cookie-HasCookie w path user secret e,
      use_cookie-filled path user secret r,
    )

-- A cookie changes nothing where nothing is empty.
FilledBy_full :
    (w : Surroundings) (paths : List Bytes) (r : ResolvedBitcoinCoreRpcConfig)
    → is_empty r.config.connection.username ≡ false
    → is_empty r.config.connection.password ≡ false
    → texts_of (try_cookies w paths r) ≡ texts_of r
unfolding try_cookies use_cookie set_username set_password
FilledBy_full w [] r e f = refl
FilledBy_full w (path ∷ paths) r e f = tried (load_cookie w path) (FilledBy_full w paths r e f)
  where
    tried :
        (o : Option (Bytes × Bytes))
        → texts_of (try_cookies w paths r) ≡ texts_of r
        → texts_of
            (elim o [ none ↦ try_cookies w paths r | some cookie ↦ use_cookie path cookie r ])
          ≡ texts_of r
    tried none h = h
    tried (some (user, secret)) h = use_cookie-filled path user secret r ∙ rw e (rw f refl)

completed :
    (w : Surroundings) (paths : List Bytes) (r : ResolvedBitcoinCoreRpcConfig)
    → FilledBy w paths (texts_of r) (
        texts_of (
          if is_empty r.config.connection.username || is_empty r.config.connection.password
          then try_cookies w paths r
          else r))
completed w paths r =
    chosen (is_empty r.config.connection.username) (is_empty r.config.connection.password) refl refl
  where
    chosen :
        (no_user no_password : Bool)
        → is_empty r.config.connection.username ≡ no_user
        → is_empty r.config.connection.password ≡ no_password
        → FilledBy w paths
            (texts_of r)
            (texts_of (if no_user || no_password then try_cookies w paths r else r))
    chosen true b e f = try_cookies-FilledBy w paths r
    chosen false true e f = try_cookies-FilledBy w paths r
    chosen false false e f =
        subst (FilledBy w paths (texts_of r)) (FilledBy_full w paths r e f)
          (try_cookies-FilledBy w paths r)

-- Where the resolution does not throw, the host and the path are the value of the variable with the
-- prefix BLOCXXI, else of the one with BITCOIN, else what the configuration file and the given
-- configuration leave, and so are the user and the password, if they are not empty then; those that are
-- empty are taken from the first of the places of a cookie that has one, a line with the user, a colon
-- and the password, if there is one.
pub resolve_precedence :
    (w : Surroundings) (base : BitcoinCoreRpcConfig) (config_path : Option Bytes)
    (r : ResolvedBitcoinCoreRpcConfig)
    → resolve_bitcoin_core_rpc_config_details w base config_path ≡ ok r
    → (l : Loading) × (load_file
          (chosen_path w base config_path)
          (w.read_file (chosen_path w base config_path))
          (unresolved base (chosen_path w base config_path))
        ≡ ok l)
      × FilledBy w
          (places w (chosen_path w base config_path) l)
          (env_over w (text "BLOCXXI") (env_over w (text "BITCOIN") (texts_of l.resolved)))
          (texts_of r)
unfolding resolve_bitcoin_core_rpc_config_details finish_config
resolve_precedence w base config_path r h =
    let path = chosen_path w base config_path in
    let (l, e, f) = bind_ok (load_file path (w.read_file path) (unresolved base path)) _ h in
    let (s, g, i) = bind_ok (apply_env w (text "BITCOIN") l.resolved) _ f in
    let (t, j, k) = bind_ok (apply_env w (text "BLOCXXI") s) _ i in
    let set : texts_of t
        ≡ env_over w (text "BLOCXXI") (env_over w (text "BITCOIN") (texts_of l.resolved)) =
      apply_env-texts w (text "BLOCXXI") s j
      ∙ ap (env_over w (text "BLOCXXI")) (apply_env-texts w (text "BITCOIN") l.resolved g) in
    (
      l,
      e,
      subst (λ u. FilledBy w (places w path l) u (texts_of r)) set
          (subst (λ c. FilledBy w (places w path l) (texts_of t) (texts_of c)) (ok_injective k)
            (subst
              (λ ps. FilledBy w ps (texts_of t) (
                texts_of (
                  if is_empty t.config.connection.username || is_empty t.config.connection.password
                  then try_cookies w (cookie_candidates w path l) t
                  else t)))
              (places_candidates w path l) (completed w (cookie_candidates w path l) t))),
    )
