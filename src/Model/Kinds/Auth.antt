-- ===== src/Model/Kinds/Auth.antt =====
-- The labels of `AuthMethod` in crates/hopenconnect_core/src/model.rs.
use h_openconnect.Base.{Text, codes}
use h_openconnect.Model.Kinds.{AuthMethod, password, certificate, password_and_certificate, saml}

unfoldable pub as_label : AuthMethod → Text
as_label password = codes "Password"
as_label certificate = codes "Certificate"
as_label password_and_certificate = codes "Password+Cert"
as_label saml = codes "SAML"
