-- ===== src/Api/Refusals.antt =====
-- internal/api/server.go: what the handlers refuse a request with.
use tailclip.Base.{if◌then◌else◌}
use tailclip.Clipboard.{ClipError, is_busy, is_unavailable}
use tailclip.Api.{Refusal}

abbrev pub rate_limited : Refusal
rate_limited = record { status = 429; code = "rate_limited"; message = "操作太頻繁，請稍候再試。" }

abbrev pub get_only : Refusal
get_only = record { status = 405; code = "method_not_allowed"; message = "這個端點只接受 GET。" }

abbrev pub get_or_post_only : Refusal
get_or_post_only = record {
  status = 405;
  code = "method_not_allowed";
  message = "這個端點只接受 GET 或 POST。";
}

abbrev pub unreadable_text : Refusal
unreadable_text = record { status = 500; code = "invalid_text"; message = "電腦剪貼簿不是有效的純文字。" }

abbrev pub desktop_text_too_large : Refusal
desktop_text_too_large = record {
  status = 413;
  code = "text_too_large";
  message = "電腦剪貼簿文字超過 1 MiB。";
}

abbrev pub not_json : Refusal
not_json = record { status = 415; code = "invalid_request"; message = "請以 JSON 傳送純文字。" }

abbrev pub text_too_large : Refusal
text_too_large = record { status = 413; code = "text_too_large"; message = "文字超過 1 MiB。" }

abbrev pub not_utf8 : Refusal
not_utf8 = record { status = 400; code = "invalid_text"; message = "文字不是有效的 UTF-8。" }

abbrev pub not_a_text : Refusal
not_a_text = record { status = 400; code = "invalid_request"; message = "JSON 必須只包含 text 字串。" }

abbrev pub empty_or_nul : Refusal
empty_or_nul = record { status = 400; code = "invalid_text"; message = "文字不可為空或包含 NUL。" }

abbrev pub clipboard_busy : Refusal
clipboard_busy = record {
  status = 503;
  code = "clipboard_busy";
  message = "電腦剪貼簿暫時忙碌，請稍候再試。若持續發生，請重新啟動 TailBlink。";
}

abbrev pub clipboard_unavailable : Refusal
clipboard_unavailable = record {
  status = 503;
  code = "clipboard_unavailable";
  message = "找不到可用的桌面剪貼簿工作階段。";
}

abbrev pub internal_error : Refusal
internal_error = record { status = 500; code = "internal_error"; message = "TailBlink 暫時無法完成操作。" }

unfoldable pub clipboard_refusal : ClipError → Refusal
clipboard_refusal e =
    if is_busy e
    then clipboard_busy
    else if is_unavailable e
    then clipboard_unavailable
    else internal_error
