-- ===== src/Ows/Exception/Status.antt =====
-- The HTTP status under which an exception reaches the client.
use giti.Prelude.{
  Bool, not, ◌&&◌, ◌||◌, ◌≡◌, refl, arith, text_eq, to_upper, to_lower, if◌then◌else◌, Text, codes,
  Bool-cases, inl, inr, ◌==◌,
}
use giti.Ows.Exception.{
  ServiceError, Printers, status_of, contains, write_wms111, write_wms130, write_ogc120,
  write_ows10, write_ows11, write_json_exception, write_report, write_exception,
}

-- The formats that are sent with 200 OK: WMS, and WFS 1.0.0.
unfoldable pub is_always_ok : Text → Text → Bool
unfolding text_eq
is_always_ok service version =
    text_eq service (codes "WMS")
    || (text_eq service (codes "WFS") && text_eq version (codes "1.0.0"))

write_report-status :
    (p : Printers) (service version : Text) (e : ServiceError)
    → (write_report p service version e).status
      ≡ (if is_always_ok service version then 200 else if e.status == 0 then 400 else e.status)
unfolding status_of write_report write_wms111 write_wms130 write_ogc120 write_ows10 write_ows11
    is_always_ok
write_report-status p service version e = ground arith

-- An exception carries the status of the error, or 400 where the error has none, except that a WMS
-- of any version and a WFS 1.0.0 answer 200 unless the client asked for JSON.
pub write_exception-status :
    (p : Printers) (service version exceptions : Text) (e : ServiceError)
    → (write_exception p service version exceptions e).status ≡ (
        if not (contains (to_lower exceptions) (codes "json"))
          && is_always_ok (to_upper service) version
        then 200
        else if e.status == 0
        then 400
        else e.status)
unfolding write_exception write_json_exception
write_exception-status p service version exceptions e =
    elim (Bool-cases (contains (to_lower exceptions) (codes "json"))) [
      | inl json ↦ rw json refl
      | inr xml ↦ rw xml (write_report-status p (to_upper service) version e)
    ]
