-- ===== src/Gateway/Success.antt =====
-- What a message that the gateway delivers has passed.
use gonewsd.Prelude.{
  ◌≡◌, refl, ap, ◌∙◌, sym, Bool, true, false, List, Option, none, some, length, Bytes, str,
  Bool-cases, inl, inr,
}
use gonewsd.Auth.Validate.{valid_group_name}
use gonewsd.Gateway.{
  Reading, Gateway, delivered, Mail, mail_gateway, gateway_loaded, gateway_message, gateway_checked,
  gateway_posted, read_mail, new_reading, gateway_headers, check_headers, seen_headers, mail_of,
}
use gonewsd.Group.Headers.{parse_article, update_path}
use gonewsd.Group.Posting.{Posting, ended, endless, post}
use gonewsd.Group.Settings.{load_info_full}
use gonewsd.Group.Types.{Group, Env, Outcome, ok, fail}
use gonewsd.Spool.Disk.{Disk}

-- The posting of what is read, under the headers that the check leaves.
pub record Posts (env : Env) (name : Bytes) (date : Bool) (msg : Bytes) (d : Disk) (g : Group)
    (m : Option Mail) (d' : Disk) : Type 0 where
  pub headers : List Bytes
  pub checked : check_headers (parse_article msg).0 ≡ some headers
  pub posted :
      post env
        (update_path env.cfg.server_name headers)
        (parse_article msg).1
        (str "localhost")
        date
        d
      ≡ ended (ok g, d')
  pub mailed :
      m
      ≡ mail_of env g
          (seen_headers env name g.end
            (update_path env.cfg.server_name headers)
            (length (parse_article msg).1)
            date)
          (parse_article msg).1

-- A delivery: the name is valid, its group loads, the message is within the limit of the group, and
-- `Post` succeeds with what was read.
pub record Delivers (env : Env) (version name : Bytes) (date : Bool) (input : Bytes) (d : Disk)
    (g : Group) (m : Option Mail) (d' : Disk) : Type 0 where
  pub valid : valid_group_name name ≡ true
  pub group : Group
  pub loaded : Disk
  pub loads : load_info_full env name d ≡ (ok group, loaded)
  pub within :
      (read_mail group.post_limit (new_reading (gateway_headers version name)) input).toolong
      ≡ false
  pub posts :
      Posts env name date
        (read_mail group.post_limit (new_reading (gateway_headers version name)) input).msg
        loaded
        g
        m
        d'

delivered-eq :
    {g g' : Group} {m m' : Option Mail} {d d' : Disk}
    → ◌≡◌ {A = Gateway × Disk} (delivered g m, d) (delivered g' m', d')
    → (g ≡ g') × (m ≡ m') × (d ≡ d')
delivered-eq e = (cc, cc, cc)

pair-eq : {g g' : Group} {d d' : Disk} → g ≡ g' → d ≡ d' → ended (ok g, d) ≡ ended (ok g', d')
pair-eq a b = cc

module _ (env : Env) (name : Bytes) (date : Bool) where
  posted_ok :
      (hs bs : List Bytes) (r : Posting) {g : Group} {m : Option Mail} {d' : Disk}
      → gateway_posted env name date hs bs r ≡ (delivered g m, d')
      → (r ≡ ended (ok g, d'))
        × (m ≡ mail_of env g (seen_headers env name g.end hs (length bs) date) bs)
  unfolding gateway_posted
  posted_ok hs bs (endless d) e = absurd (cc (ap (λ t. t.0) e))
  posted_ok hs bs (ended (fail m, d)) e = absurd (cc (ap (λ t. t.0) e))
  posted_ok hs bs (ended (ok g, d)) e =
      let (a, b, c) = delivered-eq e in
      (
        pair-eq a c,
        sym b ∙ ap (λ x. mail_of env x (seen_headers env name x.end hs (length bs) date) bs) a,
      )

  checked_ok :
      (msg : Bytes) (o : Option (List Bytes)) (d : Disk) {g : Group} {m : Option Mail} {d' : Disk}
      → check_headers (parse_article msg).0 ≡ o
      → gateway_checked env name date (parse_article msg).1 o d ≡ (delivered g m, d')
      → Posts env name date msg d g m d'
  unfolding gateway_checked
  checked_ok msg none d k e = absurd (cc (ap (λ t. t.0) e))
  checked_ok msg (some hs) d k e =
      let (p, q) = posted_ok (update_path env.cfg.server_name hs) (parse_article msg).1 _ e in
      record { headers = hs; checked = k; posted = p; mailed = q }

  message_ok :
      (group : Group) (r : Reading) (d : Disk) {g : Group} {m : Option Mail} {d' : Disk}
      → gateway_message env name date group r d ≡ (delivered g m, d')
      → (r.toolong ≡ false) × Posts env name date r.msg d g m d'
  unfolding gateway_message
  message_ok group r d e = elim (Bool-cases r.toolong) [
    | inl t ↦ absurd (cc (ap (λ t. t.0) (rw t at e)))
    | inr t ↦ (t, checked_ok r.msg _ d refl (rw t at e))
  ]

  loaded_ok :
      (version input : Bytes) (r : Outcome Group × Disk) {g : Group} {m : Option Mail} {d' : Disk}
      → gateway_loaded env version name date input r ≡ (delivered g m, d')
      → (group : Group) × (d : Disk) × (r ≡ (ok group, d))
        × ((read_mail group.post_limit (new_reading (gateway_headers version name)) input).toolong
            ≡ false)
        × Posts env name date
            (read_mail group.post_limit (new_reading (gateway_headers version name)) input).msg
            d
            g
            m
            d'
  unfolding gateway_loaded
  loaded_ok version input (fail _, d) e = absurd (cc (ap (λ t. t.0) e))
  loaded_ok version input (ok group, d) e =
      let (t, p) =
        message_ok group
          (read_mail group.post_limit (new_reading (gateway_headers version name)) input) d e in
      (group, d, refl, t, p)

  -- Where the gateway delivers a message, the name is that of a valid group that loads, the message is
  -- within its limit, `Post` has succeeded with the headers that the check leaves and the body that was
  -- read, and a mail is sent if the group has an address for it and there is a command.
  pub mail_gateway-Delivers :
      (version input : Bytes) (d : Disk) {g : Group} {m : Option Mail} {d' : Disk}
      → mail_gateway env version name date input d ≡ (delivered g m, d')
      → Delivers env version name date input d g m d'
  unfolding mail_gateway
  mail_gateway-Delivers version input d e = elim (Bool-cases (valid_group_name name)) [
    | inr f ↦ absurd (cc (ap (λ t. t.0) (rw f at e)))
    | inl v ↦
        let (group, loaded, l, t, p) = loaded_ok version input _ (rw v at e) in
        record { valid = v; group = group; loaded = loaded; loads = l; within = t; posts = p }
  ]
