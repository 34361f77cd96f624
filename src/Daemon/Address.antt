-- ===== src/Daemon/Address.antt =====
-- The address of a daemon: `create_info` and `get_socket` of src/server/run.rs. Addresses are of
-- the standard library, and an id is drawn by the crate uuid: they are parameters.
use laqista.Base.{
  ℕ, ◌≡◌, refl, Bool, false, Bool-cases, if◌then◌else◌, inl, inr, String, Option, none, some,
  Outcome, ok, ◌>>=◌, map_err, expect, to_option, >>=-ok, ok_inj, subst, sym, ◌∙◌, arith,
}
use laqista.Base.Text.{str_append}
use laqista.IdMap.{Uuid}
use laqista.Types.{Crates, Error, text, ServerInfo}
use laqista.Types.{from_mac}
use laqista.Base.{ok_or}
use laqista.Types.Convert.{with_id, with_id_str}

-- An address of this machine is one that others can name.
pub record Addresses : Type 1 where
  pub Ip : Type 0
  pub is_unspecified : Ip → Bool
  pub shown : Ip → String
  pub shown_port : ℕ → String
  pub local_ip : Outcome Error Ip
  pub parse : String → Outcome String (Ip × ℕ)
  pub Mac : Type 0
  pub get_mac_address : Outcome String (Option Mac)
  pub internal_error : String
  pub now_v6 : Mac → Uuid
  pub local_ip-specified : (i : Ip) → local_ip ≡ ok i → is_unspecified i ≡ false

module _ ⦃a : Addresses⦄ where
  open a use {
    Ip, is_unspecified, shown, shown_port, local_ip, parse, Mac, get_mac_address, internal_error,
    now_v6, local_ip-specified,
  }

  unfoldable pub get_socket : String → Outcome Error (Ip × ℕ)
  get_socket listen_host =
      map_err (λ e. text (str_append "failed to parse listen address: " e)) (parse listen_host)

  abbrev pub host_of : Ip → ℕ → String
  host_of i port = str_append (shown i) (str_append ":" (shown_port port))

  -- The address that others reach a socket by.
  abbrev pub reached_by : Ip → Outcome Error Ip
  reached_by i = if is_unspecified i then local_ip else ok i

  reached_by-specified : (i j : Ip) → reached_by i ≡ ok j → is_unspecified j ≡ false
  reached_by-specified i j h = elim (Bool-cases (is_unspecified i)) [
    | inr e ↦ subst (λ k. is_unspecified k ≡ false) (ok_inj (sym (rw e refl) ∙ h)) e
    | inl e ↦ local_ip-specified j (sym (rw e refl) ∙ h)
  ]

  -- `utils::get_mac`: a machine without an address is an error too.
  abbrev pub get_mac : Outcome String Mac
  get_mac = get_mac_address >>= λ addr. ok_or internal_error addr

  -- `ServerInfo::gen_id`
  abbrev pub gen_id : Outcome Error Uuid
  gen_id = map_err from_mac get_mac >>= λ mac. ok (now_v6 mac)

  -- `ServerInfo::new` panics where no id can be drawn.
  unfoldable pub new : String → Outcome Error ServerInfo
  unfolding with_id
  new host = expect (to_option gen_id) >>= λ id. ok (with_id host id)

  module _ ⦃c : Crates⦄ where
    -- `ServerInfo::with_id_str`, or `ServerInfo::new`.
    abbrev pub info_named : Option String → String → Outcome Error ServerInfo
    info_named (some id) host = with_id_str id host
    info_named none host = new host

    unfoldable pub create_info : Ip × ℕ → Option String → Outcome Error ServerInfo
    unfolding with_id_str with_id new
    create_info (i, port) id = reached_by i >>= λ i. info_named id (host_of i port)

    info_named-addr :
        (id : Option String) (host : String) (info : ServerInfo)
        → info_named id host ≡ ok info
        → info.addr ≡ str_append "http://" host
    unfolding with_id_str with_id new
    info_named-addr (some id) host info h = ground arith
    info_named-addr none host info h = ground arith

    -- The address that a daemon gives to others is its own port at an address that is specified,
    -- also if it listens on every address.
    pub create_info-specified :
        (i : Ip) (port : ℕ) (id : Option String) (info : ServerInfo)
        → create_info (i, port) id ≡ ok info
        → (j : Ip) × (is_unspecified j ≡ false)
          × (info.addr ≡ str_append "http://" (host_of j port))
    unfolding create_info
    create_info-specified i port id info h =
        let (j, reached, made) = >>=-ok (reached_by i) (λ j. info_named id (host_of j port)) h in
        (j, reached_by-specified i j reached, info_named-addr id (host_of j port) info made)
