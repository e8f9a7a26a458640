-- ===== src/Http/Client/Plugins/Header.antt =====
-- The header leaves the type of a request as it is.
use raspberry_car.Base.{ℕ, ◌≡◌, sym, ap, ◌∙◌, List, [], ◌∷◌, some, inl, inr, Bool-cases}
use raspberry_car.CString.{c_str}
use raspberry_car.Http.Request.{Request}
use raspberry_car.Http.Client.{
  header_line, read_header, has_case, goes_on, user_agent, authorization,
}

pub header_line-type_ : (req : Request) (line : List ℕ) → (header_line req line).type_ ≡ req.type_
unfolding header_line
header_line-type_ req line = elim (Bool-cases (has_case line user_agent)) [
  | inl agent ↦ rw agent
  | inr no_agent ↦ elim (Bool-cases (has_case line authorization)) [
    | inl auth ↦ rw (no_agent, auth)
    | inr no_auth ↦ rw (no_agent, no_auth)
  ]
]

pub read_header-type_ :
    (lines : List (List ℕ)) (req req' : Request)
    → read_header req lines ≡ some req'
    → req'.type_ ≡ req.type_
unfolding read_header
read_header-type_ [] req req' h = cc
read_header-type_ (bytes ∷ lines) req req' h = elim (Bool-cases (goes_on bytes)) [
  | inl more ↦
      read_header-type_ lines (header_line req (c_str bytes)) req' (rw more at h)
      ∙ header_line-type_ req (c_str bytes)
  | inr last ↦
      let same : header_line req (c_str bytes) ≡ req' = cc (rw last at h) in
      ap (λ (r : Request). r.type_) (sym same) ∙ header_line-type_ req (c_str bytes)
]
